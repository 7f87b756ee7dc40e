-- ===== src/CopySlice/Correct.antt =====
-- `copy_slice` does what `copy_from_slice` does, whichever way it takes.
use vm_memory.Base.{
  ℕ, ◌+◌, ◌-◌, ◌%◌, ◌≤◌, ◌<◌, min, ◌≡◌, refl, sym, ap, ◌∙◌, inl, inr, true, arith, leb, Bool-cases,
  word, Outcome, panic, stuck, err, ok, ◌>>=◌,
}
use vm_memory.CopySlice.{
  Mem, move_bytes, alignment, is_width, Copying, copy_aligned_slice, copy_slice_volatile,
  copy_slice,
}
use vm_memory.CopySlice.LowBit.{alignment-IsLowBit}
use vm_memory.CopySlice.Loop.{Apart, HasCopied, Copies, aligned-Copies}
use mathlib.Core.Path.{fun_ext, subst}
use native.Mathlib.Nat.{mod-one}

-- The state before the first loop.
start_lem :
    (src dst total : ℕ) (m : Mem)
    → HasCopied src dst total m 0 (record { left = total; src_addr = src; dst_addr = dst; mem = m })
start_lem src dst total m =
    (omega arith, omega arith, omega arith, omega arith, fun_ext (λ a. ground arith))

Copies-ok :
    (src dst total : ℕ) (m : Mem) (align w : ℕ) (o : Outcome ⊥ Copying)
    → Copies src dst total m align w o
    → (c : Copying) × (o ≡ ok c) × Copies src dst total m align w (ok c)
Copies-ok src dst total m align w (ok c) h = (c, refl, h)
Copies-ok src dst total m align w (err e) h = absurd h
Copies-ok src dst total m align w panic h = absurd h
Copies-ok src dst total m align w stuck h = absurd h

all_copied :
    (a b k total : ℕ) → 1 ≤ a → 1 ≤ b → (1 ≤ min a b → total - k < 1) → k ≤ total → k ≡ total
all_copied a b k total p q rest h = omega (arith, rest (omega arith))

module _ (src dst total : ℕ) (m : Mem) (src_pos : 0 < src) (dst_pos : 0 < dst)
    (src_end : src + total < word) (dst_end : dst + total < word)
    (apart : Apart src dst total) where
  align_of : ℕ
  align_of = min (alignment src) (alignment dst)

  loop :
      (w : ℕ)
      → 0 < w
      → is_width w ≡ true
      → (w ≤ align_of → (src % w ≡ 0) × (dst % w ≡ 0))
      → (k : ℕ) (c : Copying) → HasCopied src dst total m k c
      → k % w ≡ 0
      → (c' : Copying) × (copy_aligned_slice align_of w c ≡ ok c')
        × Copies src dst total m align_of w (ok c')
  loop w pos width aligned k c at even =
      Copies-ok src dst total m align_of w (copy_aligned_slice align_of w c) (
        aligned-Copies src dst total m align_of w pos width src_end dst_end apart aligned k c at
          even)

  -- The loops to come, and what they leave.
  Done : Outcome ⊥ Copying → Type 0
  Done o = (c : Copying) × (o ≡ ok c) × (c.mem ≡ move_bytes dst src total m)

  Looped : ℕ → Copying → Type 0
  Looped w c =
      (c' : Copying) × (copy_aligned_slice align_of w c ≡ ok c')
      × Copies src dst total m align_of w (ok c')

  then_Done :
      (rest : Outcome ⊥ Copying → Outcome ⊥ Copying) (o : Outcome ⊥ Copying) (c : Copying)
      → o ≡ ok c
      → Done (rest (ok c))
      → Done (rest o)
  then_Done rest o c e h = subst (λ x. Done (rest x)) (sym e) h

  loop_eight : (c : Copying) → HasCopied src dst total m 0 c → Looped 8 c
  unfolding Looped align_of
  loop_eight c at =
      let s = alignment-IsLowBit src src_pos (omega arith) in
      let d = alignment-IsLowBit dst dst_pos (omega arith) in
      loop 8 (omega arith) refl (λ h. (s.3 (omega (arith, h)), d.3 (omega (arith, h)))) 0 c at refl

  loop_four : (k : ℕ) (c : Copying) → HasCopied src dst total m k c → k % 4 ≡ 0 → Looped 4 c
  unfolding Looped align_of
  loop_four k c at even =
      let s = alignment-IsLowBit src src_pos (omega arith) in
      let d = alignment-IsLowBit dst dst_pos (omega arith) in
      loop 4 (omega arith) refl (λ h. (s.2 (omega (arith, h)), d.2 (omega (arith, h)))) k c at even

  loop_two : (k : ℕ) (c : Copying) → HasCopied src dst total m k c → k % 2 ≡ 0 → Looped 2 c
  unfolding Looped align_of
  loop_two k c at even =
      let s = alignment-IsLowBit src src_pos (omega arith) in
      let d = alignment-IsLowBit dst dst_pos (omega arith) in
      loop 2 (omega arith) refl (λ h. (s.1 (omega (arith, h)), d.1 (omega (arith, h)))) k c at even

  loop_one : (k : ℕ) (c : Copying) → HasCopied src dst total m k c → Looped 1 c
  unfolding Looped
  loop_one k c at = loop 1 (omega arith) refl (λ h. (mod-one src, mod-one dst)) k c at (mod-one k)

  after_one : (c : Copying) → Looped 1 c → Done (copy_aligned_slice align_of 1 c)
  unfolding Looped Done align_of
  after_one c (c', e, (k, at, even, left)) =
      let s = alignment-IsLowBit src src_pos (omega arith) in
      let d = alignment-IsLowBit dst dst_pos (omega arith) in
      (
        c',
        e,
        at.4
            ∙ ap (λ k. move_bytes dst src k m)
                (all_copied (alignment src) (alignment dst) k total s.0 d.0 left at.0),
      )

  after_two :
      (c : Copying)
      → Looped 2 c
      → Done (copy_aligned_slice align_of 2 c >>= copy_aligned_slice align_of 1)
  unfolding Looped
  after_two c (c', e, (k, at, even, left)) =
      then_Done (λ o. o >>= copy_aligned_slice align_of 1) _ c' e (after_one c' (loop_one k c' at))

  after_four :
      (c : Copying)
      → Looped 4 c
      → Done (
          copy_aligned_slice align_of 4 c
          >>= copy_aligned_slice align_of 2
          >>= copy_aligned_slice align_of 1)
  unfolding Looped
  after_four c (c', e, (k, at, even, left)) =
      then_Done (λ o. o >>= copy_aligned_slice align_of 2 >>= copy_aligned_slice align_of 1) _ c' e
        (after_two c' (loop_two k c' at (omega (arith, even))))

  after_eight :
      (c : Copying)
      → Looped 8 c
      → Done (
          copy_aligned_slice align_of 8 c
          >>= copy_aligned_slice align_of 4
          >>= copy_aligned_slice align_of 2
          >>= copy_aligned_slice align_of 1)
  unfolding Looped
  after_eight c (c', e, (k, at, even, left)) =
      then_Done
        (λ o.
          o
          >>= copy_aligned_slice align_of 4
          >>= copy_aligned_slice align_of 2
          >>= copy_aligned_slice align_of 1)
        _ c' e (after_four c' (loop_four k c' at (omega (arith, even))))

  finished :
      (o : Outcome ⊥ Copying)
      → Done o
      → ◌≡◌ {A = Outcome ⊥ (ℕ × Mem)}
          (o >>= (λ c. ok (total, c.mem)))
          (ok (total, move_bytes dst src total m))
  unfolding Done
  finished o (c, e, moved) = rw e (ap (λ t. ok (total, t)) moved)

-- Where neither slice starts at address 0, both end below 2 ^ 64 and they do not overlap, `copy_slice_volatile` comes back with all of its accesses aligned, returns the smaller of
-- the two lengths and leaves what one move of that many bytes leaves, for any two alignments.
pub copy_slice_volatile_lem :
    (dst dst_len src src_len : ℕ) (m : Mem)
    → 0 < src
    → 0 < dst
    → src + src_len < word
    → dst + dst_len < word
    → Apart src dst (min src_len dst_len)
    → copy_slice_volatile dst dst_len src src_len m
      ≡ ok (min src_len dst_len, move_bytes dst src (min src_len dst_len) m)
unfolding copy_slice_volatile align_of
copy_slice_volatile_lem dst dst_len src src_len m sp dp se de apart =
    let total = min src_len dst_len in
    let start : Copying = record { left = total; src_addr = src; dst_addr = dst; mem = m } in
    let s : src + total < word = omega arith in
    let d : dst + total < word = omega arith in
    finished src dst total m sp dp s d apart _ (
      after_eight src dst total m sp dp s d apart start
        (loop_eight src dst total m sp dp s d apart start (start_lem src dst total m)))

-- Where neither slice starts at address 0, both end below 2 ^ 64 and they do not overlap, `copy_slice`
-- comes back, returns the smaller of the two lengths and leaves what one move of that many bytes
-- leaves, for any two alignments; in the volatile copy of up to 8 bytes every access is aligned.
pub copy_slice_lem :
    (dst dst_len src src_len : ℕ) (m : Mem)
    → 0 < src
    → 0 < dst
    → src + src_len < word
    → dst + dst_len < word
    → Apart src dst (min src_len dst_len)
    → copy_slice dst dst_len src src_len m
      ≡ ok (min src_len dst_len, move_bytes dst src (min src_len dst_len) m)
unfolding copy_slice
copy_slice_lem dst dst_len src src_len m sp dp se de apart =
    elim (Bool-cases (leb (min src_len dst_len) 8)) [
      | inl e ↦ rw e (copy_slice_volatile_lem dst dst_len src src_len m sp dp se de apart)
      | inr e ↦ rw e refl
    ]
