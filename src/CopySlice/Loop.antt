-- ===== src/CopySlice/Loop.antt =====
-- The loops of `copy_slice_volatile`: after `k` bytes, the memory is what one move of `k` bytes
-- leaves.
use vm_memory.Base.{
  ℕ, zero, suc, ◌+◌, ◌-◌, ◌%◌, ◌≤◌, ◌<◌, ◌≡◌, refl, ◌⊎◌, inl, inr, true, ◌&&◌, arith, leb, ◌==◌,
  Bool-cases, word, Outcome, panic, stuck, err, ok,
}
use vm_memory.CopySlice.{
  Mem, move_bytes, is_width, copy_single, Copying, advance, copy_rounds, copy_aligned_slice,
}
use mathlib.Core.Path.{fun_ext}
use native.Mathlib.Nat.{mod_self, add-mod, zero-mod}

mod_sum : (a b w : ℕ) → a % w ≡ 0 → b % w ≡ 0 → (a + b) % w ≡ 0
mod_sum a b w p q = rw (add-mod a b w, p, q) (zero-mod w)

==_true : {a b : ℕ} → a ≡ b → (a == b) ≡ true
==_true e = ground arith

module _ (src dst total : ℕ) where
  -- Two areas that do not meet.
  abbrev pub Apart : Type 0
  Apart = (src + total ≤ dst) ⊎ (dst + total ≤ src)

  moved_further :
      (k w : ℕ) (m : Mem)
      → Apart
      → k + w ≤ total
      → move_bytes (dst + k) (src + k) w (move_bytes dst src k m) ≡ move_bytes dst src (k + w) m
  moved_further k w m (inl apart) h = fun_ext (λ a. ground arith)
  moved_further k w m (inr apart) h = fun_ext (λ a. ground arith)

  module _ (m : Mem) where
    -- The loop has copied `k` bytes.
    abbrev pub HasCopied : ℕ → Copying → Type 0
    HasCopied k c =
        (k ≤ total)
        × (c.left ≡ total - k)
        × (c.src_addr ≡ src + k)
        × (c.dst_addr ≡ dst + k)
        × (c.mem ≡ move_bytes dst src k m)

    module _ (align w : ℕ) where
      -- What `copy_aligned_slice` leaves.
      abbrev pub Copies : Outcome ⊥ Copying → Type 0
      Copies (ok c) = (k : ℕ) × HasCopied k c × (k % w ≡ 0) × (w ≤ align → total - k < w)
      Copies (err e) = ⊥
      Copies panic = ⊥
      Copies stuck = ⊥

      module _ (pos : 0 < w) (width : is_width w ≡ true) (src_end : src + total < word)
          (dst_end : dst + total < word) (apart : Apart)
          (aligned : w ≤ align → (src % w ≡ 0) × (dst % w ≡ 0)) where
        single_lem :
            (k : ℕ) (c : Copying)
            → HasCopied k c
            → k % w ≡ 0
            → w ≤ align
            → copy_single w c.src_addr c.dst_addr c.mem
              ≡ ok (move_bytes (dst + k) (src + k) w (move_bytes dst src k m))
        unfolding copy_single
        single_lem k c (_, _, s, d, e) even fits =
            rw
              (
                s,
                d,
                e,
                width,
                ==_true (mod_sum src k w (aligned fits).0 even),
                ==_true (mod_sum dst k w (aligned fits).1 even),
              )
              refl

        rounds-Copies :
            (fuel k : ℕ) (c : Copying)
            → HasCopied k c
            → k % w ≡ 0
            → c.left < fuel
            → Copies (copy_rounds align w fuel c)
        unfolding copy_rounds
        rounds-Copies zero k c at even enough = absurd (omega arith)
        rounds-Copies (suc fuel) k c at even enough =
            elim (Bool-cases (leb w align && leb w c.left)) [
              | inl go ↦
                  let fits : w ≤ align = ground arith in
                  let more : w ≤ c.left = ground arith in
                  let whole : w % w ≡ 0 = mod_self w in
                  let next = move_bytes (dst + k) (src + k) w (move_bytes dst src k m) in
                  rw (go, single_lem k c at even fits)
                    (rounds-Copies fuel (k + w) (advance w c next)
                      (
                        omega (arith, at.0, at.1),
                        omega (arith, at.1),
                        omega (arith, at.0, at.1, at.2),
                        omega (arith, at.0, at.1, at.3),
                        moved_further k w m apart (omega (arith, at.0, at.1)),
                      )
                      (mod_sum k w w even whole) (omega arith))
              | inr stop ↦ rw stop (k, at, even, λ fits. ground (arith, at.1))
            ]

        pub aligned-Copies :
            (k : ℕ) (c : Copying)
            → HasCopied k c
            → k % w ≡ 0
            → Copies (copy_aligned_slice align w c)
        unfolding copy_aligned_slice
        aligned-Copies k c at even = rounds-Copies (suc c.left) k c at even (omega arith)
