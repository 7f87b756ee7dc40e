-- ===== src/Volatile/Bounds.antt =====
-- Slices and references that are taken from a slice lie inside it.
use vm_memory.Base.{
  ℕ, ◌+◌, ◌≤◌, ◌<◌, ◌≡◌, refl, ◌⊎◌, inl, inr, arith, ltb, leb, ltb→lt, Bool-cases, word, Outcome,
  panic, stuck, err, ok,
}
use vm_memory.Volatile.{
  Error, out_of_bounds, overflow, compute_offset, VolatileSlice, compute_end_offset, get_slice,
  offset, split_at, subslice,
}

-- What a cut of `count` bytes at `start` out of a slice gives.
abbrev pub Cuts : VolatileSlice → ℕ → ℕ → Outcome Error VolatileSlice → Type 0
Cuts s start count (ok t) = (start + count ≤ s.size) × (t.addr ≡ s.addr + start) × (t.size ≡ count)
Cuts s start count (err e) =
    ((e ≡ out_of_bounds (start + count)) × (s.size < start + count) × (start + count < word))
    ⊎ ((e ≡ overflow start count) × (word ≤ start + count))
Cuts s start count panic = ⊥
Cuts s start count stuck = ⊥

pub get_slice-Cuts :
    (s : VolatileSlice) (start count : ℕ)
    → s.addr + s.size < word
    → Cuts s start count (get_slice s start count)
unfolding get_slice compute_end_offset compute_offset
get_slice-Cuts s start count fits = elim (Bool-cases (ltb (start + count) word)) [
  | inl e ↦ elim (Bool-cases (ltb s.size (start + count))) [
    | inl past ↦ rw (e, past) (inl (refl, ltb→lt _ _ past, ltb→lt _ _ e))
    | inr inside ↦ rw (e, inside) (ground arith, ground arith, refl)
  ]
  | inr e ↦ rw e (inr (refl, ground arith))
]

-- For a slice that ends below 2 ^ 64, `get_slice` and `subslice` agree: they succeed exactly where
-- the cut ends inside the slice, with the address and the size asked for, and else report the end
-- that is out of bounds, or the overflow of the sum.
pub cuts_lem :
    (s : VolatileSlice) (start count : ℕ)
    → s.addr + s.size < word
    → Cuts s start count (get_slice s start count) × Cuts s start count (subslice s start count)
unfolding get_slice compute_end_offset subslice
cuts_lem s start count fits = (get_slice-Cuts s start count fits, get_slice-Cuts s start count fits)

-- What `split_at` gives: two slices that make up the whole, or the reason why not.
abbrev pub Splits : VolatileSlice → ℕ → Outcome Error (VolatileSlice × VolatileSlice) → Type 0
Splits s mid (ok (a, b)) =
    (a.addr ≡ s.addr) × (a.size ≡ mid) × (b.addr ≡ a.addr + a.size) × (a.size + b.size ≡ s.size)
Splits s mid (err e) =
    (s.size < mid)
    × ((e ≡ out_of_bounds (s.addr + mid)) ⊎ ((e ≡ overflow s.addr mid) × (word ≤ s.addr + mid)))
Splits s mid panic = ⊥
Splits s mid stuck = ⊥

-- For a slice that ends below 2 ^ 64, `split_at` gives two adjacent slices that together are the
-- slice, the first of them `mid` bytes long, and fails exactly where `mid` exceeds the size.
pub split_at-Splits :
    (s : VolatileSlice) (mid : ℕ) → s.addr + s.size < word → Splits s mid (split_at s mid)
unfolding split_at offset
split_at-Splits s mid fits = elim (Bool-cases (ltb (s.addr + mid) word)) [
  | inl e ↦ elim (Bool-cases (leb mid s.size)) [
    | inl inside ↦ rw (e, inside) (refl, refl, refl, ground arith)
    | inr past ↦ rw (e, past) (ground arith, inl refl)
  ]
  | inr e ↦ rw e (ground arith, inr (refl, ground arith))
]
