-- ===== src/Volatile/Atomic.antt =====
-- The atomic accesses of a slice, at any alignment that is a power of two.
use vm_memory.Base.{
  ℕ, ◌+◌, ◌-◌, ◌%◌, ◌^◌, ◌≤◌, ◌<◌, bit_and, ◌≡◌, refl, ap, ◌∙◌, ◌≢◌, ◌⊎◌, inl, inr, ◌&&◌, List,
  arith, ltb, leb, ◌==◌, if◌then◌else◌, Bool-cases, length, get_or, word, wrapping_sub, Outcome,
  panic, stuck, err, ok, ◌>>=◌, ◌>>◌, map_ok,
}
use vm_memory.CopySlice.{Mem}
use vm_memory.CopySlice.Mask.{bit_and-mask}
use vm_memory.Volatile.{
  Error, out_of_bounds, overflow, misaligned, VolatileSlice, get_slice, check_alignment,
  get_atomic_ref,
}
use vm_memory.Volatile.Access.{store_bytes, store, load}
use vm_memory.Volatile.Bounds.{Cuts, get_slice-Cuts}
use vm_memory.Volatile.Elements.{load-store}
use native.Mathlib.Nat.{one-le-pow, one-le-pow}

low_mask : (k : ℕ) → 2 ^ k < word → wrapping_sub (2 ^ k) 1 ≡ 2 ^ k - 1
low_mask k h =
    let some_power : 1 ≤ 2 ^ k = one-le-pow k 2 (omega arith) in omega (arith, some_power)

-- `check_alignment` on every branch.
check_alignment_lem :
    (k : ℕ) (s : VolatileSlice)
    → 2 ^ k < word
    → ((s.addr % 2 ^ k ≡ 0) × (check_alignment s (2 ^ k) ≡ ok tt))
      ⊎ ((s.addr % 2 ^ k ≢ 0) × (check_alignment s (2 ^ k) ≡ err (misaligned s.addr (2 ^ k))))
unfolding check_alignment
check_alignment_lem k s h =
    let low : bit_and s.addr (wrapping_sub (2 ^ k) 1) ≡ s.addr % 2 ^ k =
      ap (bit_and s.addr) (low_mask k h) ∙ bit_and-mask k s.addr in
    elim (Bool-cases (s.addr % 2 ^ k == 0)) [
      | inl aligned ↦ inl (ground arith, rw (low, aligned) refl)
      | inr other ↦ inr (ground arith, rw (low, other) refl)
    ]

module _ (size k : ℕ) (s : VolatileSlice) (fits : s.addr + s.size < word) (small : 2 ^ k < word)
    (addr : ℕ) where
  -- Why an access is refused: it does not lie in the slice, or is not aligned.
  abbrev pub Refuses : Error → Type 0
  Refuses e =
      ((e ≡ misaligned (s.addr + addr) (2 ^ k))
        × (addr + size ≤ s.size)
        × ((s.addr + addr) % 2 ^ k ≢ 0))
      ⊎ (((e ≡ out_of_bounds (addr + size)) × (s.size < addr + size) × (addr + size < word))
          ⊎ ((e ≡ overflow addr size) × (word ≤ addr + size)))

  Refers : Outcome Error ℕ → Type 0
  Refers (ok at) = (at ≡ s.addr + addr) × (addr + size ≤ s.size) × ((s.addr + addr) % 2 ^ k ≡ 0)
  Refers (err e) = Refuses e
  Refers panic = ⊥
  Refers stuck = ⊥

  aligned-Refers :
      (o : Outcome Error VolatileSlice)
      → Cuts s addr size o
      → Refers (o >>= λ t. check_alignment t (2 ^ k) >> ok t.addr)
  unfolding Refers
  aligned-Refers (ok t) (inside, at, long) = elim (check_alignment_lem k t small) [
    | inl (aligned, e) ↦ rw e (at, inside, rw at at aligned)
    | inr (other, e) ↦ rw e (inl (rw at refl, inside, rw at at other))
  ]
  aligned-Refers (err e) c = inr c
  aligned-Refers panic c = c
  aligned-Refers stuck c = c

  get_atomic_ref-Refers :
      Refers (get_atomic_ref (λ (v : VolatileSlice). v.size) get_slice size (2 ^ k) s addr)
  unfolding get_atomic_ref
  get_atomic_ref-Refers = aligned-Refers (get_slice s addr size) (get_slice-Cuts s addr size fits)

  module _ (val : List ℕ) (m : Mem) (sized : length val ≡ size) where
    -- What `store` gives, on every branch.
    abbrev pub Stores : Outcome Error Mem → Type 0
    Stores (ok after) =
        (addr + size ≤ s.size)
        × ((s.addr + addr) % 2 ^ k ≡ 0)
        × (load size (2 ^ k) s addr after ≡ ok val)
        × ((a : ℕ)
            → after a ≡ (
                if leb (s.addr + addr) a && ltb a (s.addr + addr + size)
                then get_or val (a - (s.addr + addr)) 0
                else m a))
    Stores (err e) = Refuses e
    Stores panic = ⊥
    Stores stuck = ⊥

    store_referred :
        (o : Outcome Error ℕ)
        → get_atomic_ref (λ (v : VolatileSlice). v.size) get_slice size (2 ^ k) s addr ≡ o
        → Refers o
        → Stores (map_ok (λ at. store_bytes at val m) o)
    unfolding Refers store
    store_referred (ok at) e (here, inside, aligned) = (
      inside,
      aligned,
      load-store size (2 ^ k) s val addr m (store_bytes at val m) sized
          (ap (map_ok (λ t. store_bytes t val m)) e),
      λ a. rw (here, sized) refl,
    )
    store_referred (err x) e h = h
    store_referred panic e h = h
    store_referred stuck e h = h

    -- For a slice that ends below 2 ^ 64, an alignment that is a power of two, and a value of the size
    -- of its type, an atomic `store` succeeds exactly where the value lies in the slice and its address
    -- is aligned: its bytes are then the value, which `load` gives, and no other byte has changed; and
    -- else it reports the address that is not aligned, the end that is out of bounds, or the overflow.
    pub store-Stores : Stores (store size (2 ^ k) s val addr m)
    unfolding store
    store-Stores =
        store_referred
          (get_atomic_ref (λ (v : VolatileSlice). v.size) get_slice size (2 ^ k) s addr) refl
          get_atomic_ref-Refers
