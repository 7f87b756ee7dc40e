-- ===== src/Volatile/Elements.antt =====
-- The elements of an array that is taken from a slice, and atomic accesses to a slice.
use vm_memory.Base.{
  ℕ, suc, ◌+◌, ◌*◌, ◌^◌, ◌≤◌, ◌<◌, ◌≡◌, refl, sym, ap, ◌∙◌, ◌⊎◌, inl, inr, false, List, arith, ltb,
  ltb→lt, lt→ltb, Bool-cases, length, get_or, word, Outcome, panic, stuck, err, ok, ◌>>=◌, map_ok,
  ok_inj,
}
use vm_memory.CopySlice.{Mem, alignment}
use vm_memory.Volatile.{
  Error, too_big, VolatileSlice, VolatileArrayRef, get_slice, get_array_ref, get_atomic_ref, ref_at,
}
use vm_memory.Volatile.Access.{load_bytes, store_bytes, store, load}
use vm_memory.Volatile.Bounds.{Cuts, get_slice-Cuts}
use vm_memory.Volatile.Array.{load_bytes-eq}
use native.Mathlib.Nat.{suc-mul, mul_comm, mul-le-mul_right, mul_comm}

-- The array that `get_array_ref` takes from a slice.
abbrev pub slice_get_array : ℕ → VolatileSlice → ℕ → ℕ → Outcome Error VolatileArrayRef
slice_get_array size s start n =
    get_array_ref (λ (v : VolatileSlice). v.size) get_slice size s start n

-- Element `i` of an array lies at `s.addr + start + size * i`, inside the slice, for an index in
-- range, and another index panics.
abbrev pub HasElements : ℕ → VolatileSlice → ℕ → ℕ → VolatileArrayRef → Type 0
HasElements size s start n a =
    ((i : ℕ)
      → i < n
      → (ref_at size a i ≡ ok (s.addr + start + size * i))
        × (s.addr + start + size * i + size ≤ s.addr + s.size))
    × ((i : ℕ) → n ≤ i → ref_at size a i ≡ panic)

abbrev pub TakesArray : ℕ → VolatileSlice → ℕ → ℕ → Outcome Error VolatileArrayRef → Type 0
TakesArray size s start n (ok a) = HasElements size s start n a
TakesArray size s start n (err e) =
    ((e ≡ too_big n size) × ((2 ^ 63 ≤ n) ⊎ (2 ^ 63 ≤ n * size))) ⊎ (s.size < start + n * size)
TakesArray size s start n panic = ⊥
TakesArray size s start n stuck = ⊥

elements_lem :
    (size : ℕ) (s : VolatileSlice) (start n : ℕ)
    → s.addr + s.size < word
    → n * size < 2 ^ 63
    → start + n * size ≤ s.size
    → HasElements size s start n (record { addr = s.addr + start; nelem = n })
unfolding ref_at
elements_lem size s start n fits small inside = (
  λ i h.
      let last : suc i * size ≤ n * size = mul-le-mul_right size h in
      let end : size * i + size ≤ n * size = omega (arith, suc-mul i size, mul_comm i size) in
      (rw (lt→ltb _ _ h) (ap ok (omega arith)), omega arith),
  λ i h. let out : ltb i n ≡ false = ground arith in rw out refl,
)

cut_array :
    (size : ℕ) (s : VolatileSlice) (start n : ℕ) (o : Outcome Error VolatileSlice)
    → s.addr + s.size < word
    → n * size < 2 ^ 63
    → Cuts s start (n * size) o
    → TakesArray size s start n (o >>= λ t. ok (record { addr = t.addr; nelem = n }))
cut_array size s start n (ok t) fits small (inside, at, long) =
    rw at (elements_lem size s start n fits small inside)
cut_array size s start n (err e) fits small (inl (same, past, below)) = inr past
cut_array size s start n (err e) fits small (inr (same, past)) = inr (omega arith)
cut_array size s start n panic fits small h = absurd h
cut_array size s start n stuck fits small h = absurd h

-- For a slice that ends below 2 ^ 64, `get_array_ref` of `n` elements gives an array each of whose
-- elements lies inside the slice, at its place, and any other index of which panics; it fails only
-- where the elements do not fit behind `start`, or their size is 2 ^ 63 bytes or more.
pub get_array_ref-TakesArray :
    (size : ℕ) (s : VolatileSlice) (start n : ℕ)
    → s.addr + s.size < word
    → TakesArray size s start n (slice_get_array size s start n)
unfolding get_array_ref
get_array_ref-TakesArray size s start n fits = elim (Bool-cases (ltb n (2 ^ 63))) [
  | inl e ↦ elim (Bool-cases (ltb (n * size) (2 ^ 63))) [
    | inl small ↦
        rw (e, small)
          (cut_array size s start n (get_slice s start (n * size)) fits (ltb→lt _ _ small)
            (get_slice-Cuts s start (n * size) fits))
    | inr big ↦ rw (e, big) (inl (refl, inr (ground arith)))
  ]
  | inr e ↦ rw e (inl (refl, inl (ground arith)))
]

stored_at :
    (size : ℕ) (o : Outcome Error ℕ) (val : List ℕ) (m after : Mem)
    → length val ≡ size
    → map_ok (λ at. store_bytes at val m) o ≡ ok after
    → map_ok (λ at. load_bytes after at size) o ≡ ok val
stored_at size (ok at) val m after e h =
    let same : store_bytes at val m ≡ after = ok_inj h in
    ap ok (
      ap (load_bytes after at) (sym e)
      ∙ load_bytes-eq after at val (λ i p. ap (λ (f : Mem). f (at + i)) (sym same) ∙ stored i p))
  where
    stored : (i : ℕ) → i < length val → store_bytes at val m (at + i) ≡ get_or val i 0
    stored i p = ground arith
stored_at size (err x) val m after e h = cc
stored_at size panic val m after e h = cc
stored_at size stuck val m after e h = cc

-- Where an atomic `store` of a value of the size of its type to a slice has succeeded, `load` at that
-- address succeeds and gives the value.
pub load-store :
    (size alignment : ℕ) (s : VolatileSlice) (val : List ℕ) (addr : ℕ) (m after : Mem)
    → length val ≡ size
    → store size alignment s val addr m ≡ ok after
    → load size alignment s addr after ≡ ok val
unfolding store load
load-store size alignment s val addr m after e h =
    stored_at size (get_atomic_ref (λ (v : VolatileSlice). v.size) get_slice size alignment s addr)
      val m after e h
