-- ===== src/ByteValued/Slices.antt =====
-- Which slices are values.
use vm_memory.ByteValued.{bytes_before, align_to, only_value, from_slice}
use vm_memory.Base.{
  ℕ, ◌-◌, ◌/◌, ◌%◌, ◌<◌, ◌≡◌, refl, ap, ◌∙◌, ◌↔◌, inl, inr, true, false, ◌||◌, none, some, arith,
  ltb, ◌==◌, Bool-cases,
}
use native.Mathlib.Nat.{div_self, mod_self, mod-eq_of_lt, mod-lt}
use native.Mathlib.Decide.{ℕ_discrete}

bytes_before_iff : (align ptr : ℕ) → 0 < align → (bytes_before align ptr ≡ 0) ↔ (ptr % align ≡ 0)
bytes_before_iff align ptr pos =
    let small : ptr % align < align = mod-lt ptr pos in
    (
      (λ e. elim (ℕ_discrete (ptr % align) 0) [
        | yes zero_rest ↦ zero_rest
        | no rest ↦
            let same : (align - ptr % align) % align ≡ align - ptr % align =
              mod-eq_of_lt (omega arith) in
            absurd (omega arith)
      ]),
      λ e.
          let rest_whole : align - ptr % align ≡ align = omega arith in
          ap (λ t. t % align) rest_whole ∙ mod_self align,
    )

only_value_iff :
    (ptr p before values behind : ℕ)
    → (only_value ptr (before, values, behind) ≡ some p)
      ↔ ((before ≡ 0) × (values ≡ 1) × (behind ≡ 0) × (p ≡ ptr))
only_value_iff ptr p before values behind = ground arith

aligned_value :
    (size align ptr : ℕ)
    → 0 < size
    → ptr % align ≡ 0
    → 0 < align
    → only_value ptr (align_to size align ptr size) ≡ some ptr
aligned_value size align ptr pos e al =
    let none_before = (bytes_before_iff align ptr al).1 e in
    let sized : (size == 0) ≡ false = ground arith in
    let inside : ltb size 0 ≡ false = ground arith in
    let all : size - 0 ≡ size = omega arith in
    rw (none_before, sized, inside, all, div_self pos, mod_self size) refl

value_aligned :
    (size align ptr p : ℕ)
    → 0 < align
    → only_value ptr (align_to size align ptr size) ≡ some p
    → (0 < size) × (ptr % align ≡ 0) × (p ≡ ptr)
value_aligned size align ptr p al e =
    elim (Bool-cases (size == 0 || ltb size (bytes_before align ptr))) [
      | inl out ↦
          let e' : only_value ptr (size, 0, 0) ≡ some p = rw out at e in
          let parts = (only_value_iff ptr p size 0 0).0 e' in absurd (omega (arith, parts.1))
      | inr inside ↦
          let before = bytes_before align ptr in
          let e' : only_value ptr (before, (size - before) / size, (size - before) % size)
              ≡ some p =
            rw inside at e in
          let parts =
            (only_value_iff ptr p before ((size - before) / size) ((size - before) % size)).0 e' in
          (ground arith, (bytes_before_iff align ptr al).0 parts.0, parts.3)
    ]

-- For an alignment that is not 0, `from_slice` gives a reference exactly where the data has the size of the type, which is not 0, and
-- begins at a multiple of the type's alignment; the reference is then to the data's first byte.
pub from_slice_iff :
    (size align ptr len p : ℕ)
    → 0 < align
    → (from_slice size align ptr len ≡ some p)
      ↔ ((len ≡ size) × (0 < size) × (ptr % align ≡ 0) × (p ≡ ptr))
unfolding from_slice
from_slice_iff size align ptr len p al = (
  λ e. elim (Bool-cases (len == size)) [
    | inl same ↦
        let long : len ≡ size = ground arith in
        let e' : only_value ptr (align_to size align ptr len) ≡ some p = rw same at e in
        let facts = value_aligned size align ptr p al (rw long at e') in
        (long, facts.0, facts.1, facts.2)
    | inr other ↦ let e' : none ≡ some p = rw other at e in cc
  ],
  λ (long, pos, e, same).
      let yes_same : (size == size) ≡ true = ground arith in
      rw (long, yes_same, same) (aligned_value size align ptr pos e al),
)
