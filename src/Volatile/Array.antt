-- ===== src/Volatile/Array.antt =====
-- Arrays of values in a slice: every element lies inside, and what is copied in comes back.
use vm_memory.Base.{
  ℕ, zero, suc, ◌+◌, ◌*◌, ◌≤◌, ◌<◌, min, ◌≡◌, refl, sym, ap, ap₂, ◌∙◌, ◌⊎◌, inl, inr, List, [], ◌∷◌,
  arith, length, get_or, take, length-take, get_or_ext, word, wrapping_add,
}
use vm_memory.CopySlice.{Mem}
use vm_memory.Volatile.{VolatileArrayRef}
use vm_memory.Volatile.Access.{
  load_bytes, store_bytes, read_values, write_values, array_copy_to, array_copy_from,
}
use native.Mathlib.Nat.{suc-mul}

pub length-load_bytes : (m : Mem) (addr n : ℕ) → length (load_bytes m addr n) ≡ n
unfolding load_bytes
length-load_bytes m addr zero = refl
length-load_bytes m addr (suc n) = ap suc (length-load_bytes m (addr + 1) n)

get_or-load_bytes :
    (m : Mem) (addr n i : ℕ) → i < n → get_or (load_bytes m addr n) i 0 ≡ m (addr + i)
unfolding load_bytes
get_or-load_bytes m addr zero i h = absurd (omega arith)
get_or-load_bytes m addr (suc n) zero h = ap m (omega arith)
get_or-load_bytes m addr (suc n) (suc i) h =
    get_or-load_bytes m (addr + 1) n i (omega arith) ∙ ap m (omega arith)

pub load_bytes-eq :
    (m : Mem) (addr : ℕ) (v : List ℕ)
    → ((i : ℕ) → i < length v → m (addr + i) ≡ get_or v i 0)
    → load_bytes m addr (length v) ≡ v
load_bytes-eq m addr v h =
    get_or_ext 0 (load_bytes m addr (length v)) v (length-load_bytes m addr (length v)) (λ i p.
      let q : i < length v = omega (arith, length-load_bytes m addr (length v)) in
      get_or-load_bytes m addr (length v) i q ∙ h i q)

module _ (size : ℕ) where
  -- A buffer of values that fits into the address space at `addr`.
  abbrev pub Fits : ℕ → List (List ℕ) → Type 0
  Fits addr [] = addr < word
  Fits addr (v ∷ vs) = (length v ≡ size) × (addr + size < word) × Fits (addr + size) vs

  step_lem : (addr : ℕ) → addr + size < word → wrapping_add addr size ≡ addr + size
  step_lem addr h = omega arith

  write_values-below :
      (addr : ℕ) (vs : List (List ℕ)) (m : Mem) (a : ℕ)
      → Fits addr vs
      → a < addr
      → write_values size addr vs m a ≡ m a
  unfolding write_values
  write_values-below addr [] m a fits h = refl
  write_values-below addr (v ∷ vs) m a (e, below, fits) h =
      rw (step_lem addr below) (
        write_values-below (addr + size) vs (store_bytes addr v m) a fits (omega arith) ∙ untouched)
    where
      untouched : store_bytes addr v m a ≡ m a
      untouched = ground arith

  -- The bytes behind the values that are written keep their content.
  write_values-above :
      (addr : ℕ) (vs : List (List ℕ)) (m : Mem) (a : ℕ)
      → Fits addr vs
      → addr + length vs * size ≤ a
      → write_values size addr vs m a ≡ m a
  unfolding write_values
  write_values-above addr [] m a fits h = refl
  write_values-above addr (v ∷ vs) m a (e, below, fits) h =
      rw (step_lem addr below)
        (write_values-above (addr + size) vs (store_bytes addr v m) a fits further ∙ untouched)
    where
      further : addr + size + length vs * size ≤ a
      further = omega (arith, suc-mul (length vs) size)

      untouched : store_bytes addr v m a ≡ m a
      untouched = ground (arith, suc-mul (length vs) size)

  values_lem :
      (addr : ℕ) (vs : List (List ℕ)) (m : Mem)
      → Fits addr vs
      → read_values size addr (length vs) (write_values size addr vs m) ≡ vs
  unfolding read_values write_values
  values_lem addr [] m fits = refl
  values_lem addr (v ∷ vs) m (e, below, fits) =
      rw (step_lem addr below)
        (ap₂ ◌∷◌ first (values_lem (addr + size) vs (store_bytes addr v m) fits))
    where
      after : Mem
      after = write_values size (addr + size) vs (store_bytes addr v m)

      stored : (i : ℕ) → i < length v → store_bytes addr v m (addr + i) ≡ get_or v i 0
      stored i h = ground arith

      first : load_bytes after addr size ≡ v
      first =
          ap (load_bytes after addr) (sym e)
          ∙ load_bytes-eq after addr v (λ i h.
            write_values-below (addr + size) vs (store_bytes addr v m) (addr + i) fits (omega arith)
            ∙ stored i h)

  -- Of a buffer of any length, as many values as the array has are copied in, provided that these
  -- have the size of their type and that there are addresses below 2 ^ 64 for them: `copy_to` into a
  -- buffer as long as the first then gives these values and their number, and no byte before the array
  -- or behind the values has changed, so none outside the array.
  pub array_copy_to-array_copy_from :
      (a : VolatileArrayRef) (buf : List (List ℕ)) (m : Mem)
      → Fits a.addr (take a.nelem buf)
      → (array_copy_to size a (length buf) (array_copy_from size a buf m)
          ≡ (min (length buf) a.nelem, take a.nelem buf))
        × ((x : ℕ)
            → (x < a.addr) ⊎ (a.addr + min (length buf) a.nelem * size ≤ x)
            → array_copy_from size a buf m x ≡ m x)
  unfolding array_copy_to array_copy_from
  array_copy_to-array_copy_from a buf m fits =
      let vs = take a.nelem buf in
      let few : length vs ≡ min (length buf) a.nelem = omega (arith, length-take a.nelem buf) in
      (
        rw (← few) (ap (λ xs. (length vs, xs)) (values_lem a.addr vs m fits)),
        λ x outside. kept x (rw few outside),
      )
    where
      kept :
          (x : ℕ)
          → (x < a.addr) ⊎ (a.addr + length (take a.nelem buf) * size ≤ x)
          → write_values size a.addr (take a.nelem buf) m x ≡ m x
      kept x (inl p) = write_values-below a.addr (take a.nelem buf) m x fits p
      kept x (inr p) = write_values-above a.addr (take a.nelem buf) m x fits p
