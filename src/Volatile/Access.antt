-- ===== src/Volatile/Access.antt =====
-- src/volatile_memory.rs: the methods that read and write the memory behind a `VolatileRef`, a
-- `VolatileArrayRef` or a `VolatileSlice`, and `Bytes<usize>` of a `VolatileSlice`.
use vm_memory.Base.{
  ℕ, zero, suc, ◌+◌, ◌-◌, ◌/◌, min, ◌&&◌, List, [], ◌∷◌, ltb, leb, ◌==◌, if◌then◌else◌, length,
  get_or, take, wrapping_add, wrapping_mul, Outcome, panic, stuck, err, ok, ◌>>=◌, map_err, map_ok,
}
use vm_memory.CopySlice.{Mem, move_bytes, alignment, copy_slice}
use vm_memory.Volatile.{
  Error, out_of_bounds, partial_buffer, VolatileSlice, VolatileArrayRef, get_slice, get_array_ref,
  get_atomic_ref, ref_at,
}

-- `from_raw_parts`, or `read_volatile` of a packed value.
unfoldable pub load_bytes : Mem → ℕ → ℕ → List ℕ
load_bytes m addr zero = []
load_bytes m addr (suc n) = m addr ∷ load_bytes m (addr + 1) n

-- `write_volatile` of a packed value, or a copy from a buffer elsewhere.
abbrev pub store_bytes : ℕ → List ℕ → Mem → Mem
store_bytes addr bs m a =
    if leb addr a && ltb a (addr + length bs) then get_or bs (a - addr) 0 else m a

-- `VolatileRef::load` and `store`.
unfoldable pub ref_load : ℕ → ℕ → Mem → List ℕ
unfolding load_bytes
ref_load size addr m = load_bytes m addr size

unfoldable pub ref_store : ℕ → List ℕ → Mem → Mem
ref_store addr v m = store_bytes addr v m

-- `VolatileArrayRef::load` and `store`.
unfoldable pub array_load : ℕ → VolatileArrayRef → ℕ → Mem → Outcome Error (List ℕ)
unfolding ref_at ref_load
array_load size a index m = ref_at size a index >>= λ addr. ok (ref_load size addr m)

unfoldable pub array_store : ℕ → VolatileArrayRef → ℕ → List ℕ → Mem → Outcome Error Mem
unfolding ref_at ref_store
array_store size a index v m = ref_at size a index >>= λ addr. ok (ref_store addr v m)

-- The loop of `VolatileArrayRef::copy_to`, over as many values as both sides have.
unfoldable pub read_values : ℕ → ℕ → ℕ → Mem → List (List ℕ)
unfolding load_bytes
read_values size addr zero m = []
read_values size addr (suc n) m =
    load_bytes m addr size ∷ read_values size (wrapping_add addr size) n m

-- The loop of `VolatileArrayRef::copy_from`.
unfoldable pub write_values : ℕ → ℕ → List (List ℕ) → Mem → Mem
write_values size addr [] m = m
write_values size addr (v ∷ vs) m =
    write_values size (wrapping_add addr size) vs (store_bytes addr v m)

-- `VolatileArrayRef::copy_to` and `copy_from` for a `T` of more than one byte.
unfoldable pub array_copy_to : ℕ → VolatileArrayRef → ℕ → Mem → ℕ × List (List ℕ)
unfolding read_values
array_copy_to size a buf_len m =
    (min buf_len a.nelem, read_values size a.addr (min buf_len a.nelem) m)

unfoldable pub array_copy_from : ℕ → VolatileArrayRef → List (List ℕ) → Mem → Mem
unfolding write_values
array_copy_from size a buf m = write_values size a.addr (take a.nelem buf) m

-- `copy_to_volatile_slice` of a slice and of an array.
unfoldable pub copy_to_volatile_slice : VolatileSlice → VolatileSlice → Mem → Mem
copy_to_volatile_slice s slice m = move_bytes slice.addr s.addr (min s.size slice.size) m

unfoldable pub array_copy_to_volatile_slice : ℕ → VolatileArrayRef → VolatileSlice → Mem → Mem
array_copy_to_volatile_slice size a slice m =
    move_bytes slice.addr a.addr (min (wrapping_mul a.nelem size) slice.size) m

-- `VolatileSlice::copy_to` and `copy_from` for a `T` of more than one byte; a size of 0 panics in
-- the division, and so does `get_array_ref` where it fails.
abbrev pub unwrap_array :
    {B : Type 0} → Outcome Error VolatileArrayRef → (VolatileArrayRef → B) → Outcome Error B
unwrap_array (ok a) f = ok (f a)
unwrap_array (err e) f = panic
unwrap_array panic f = panic
unwrap_array stuck f = stuck

unfoldable pub slice_array : ℕ → VolatileSlice → Outcome Error VolatileArrayRef
unfolding get_array_ref get_slice
slice_array size s =
    get_array_ref (λ (v : VolatileSlice). v.size) get_slice size s 0 (s.size / size)

unfoldable pub copy_to : ℕ → VolatileSlice → ℕ → Mem → Outcome Error (ℕ × List (List ℕ))
unfolding slice_array array_copy_to
copy_to size s buf_len m =
    if size == 0
    then panic
    else unwrap_array (slice_array size s) (λ a. array_copy_to size a buf_len m)

unfoldable pub copy_from : ℕ → VolatileSlice → List (List ℕ) → Mem → Outcome Error Mem
unfolding slice_array array_copy_from
copy_from size s buf m =
    if size == 0
    then panic
    else unwrap_array (slice_array size s) (λ a. array_copy_from size a buf m)

-- What a copy between the memory and a buffer in it gives its caller: it has no error of its own.
abbrev pub copied : {A : Type 0} → Outcome ⊥ A → Outcome Error A
copied o = map_err (λ (e : ⊥). absurd e) o

-- `Bytes<usize>::write` and `read`; the buffer is `buf_len` bytes at `buf` of the same memory.
unfoldable pub write : VolatileSlice → ℕ → ℕ → ℕ → Mem → Outcome Error (ℕ × Mem)
unfolding copy_slice
write s buf buf_len addr m =
    if leb s.size addr
    then err (out_of_bounds addr)
    else copied (copy_slice (s.addr + addr) (s.size - addr) buf buf_len m)

unfoldable pub read : VolatileSlice → ℕ → ℕ → ℕ → Mem → Outcome Error (ℕ × Mem)
unfolding copy_slice
read s buf buf_len addr m =
    if leb s.size addr
    then err (out_of_bounds addr)
    else copied (copy_slice buf buf_len (s.addr + addr) (s.size - addr) m)

-- The end of `write_slice` and `read_slice`.
abbrev pub whole : ℕ → ℕ × Mem → Outcome Error Mem
whole expected (completed, m) =
    if completed == expected then ok m else err (partial_buffer expected completed)

unfoldable pub write_slice : VolatileSlice → ℕ → ℕ → ℕ → Mem → Outcome Error Mem
unfolding write
write_slice s buf buf_len addr m = write s buf buf_len addr m >>= whole buf_len

unfoldable pub read_slice : VolatileSlice → ℕ → ℕ → ℕ → Mem → Outcome Error Mem
unfolding read
read_slice s buf buf_len addr m = read s buf buf_len addr m >>= whole buf_len

-- `store` and `load` of an atomic type of `size` bytes.
unfoldable pub store : ℕ → ℕ → VolatileSlice → List ℕ → ℕ → Mem → Outcome Error Mem
unfolding get_atomic_ref get_slice
store size alignment s val addr m =
    map_ok (λ at. store_bytes at val m)
      (get_atomic_ref (λ (v : VolatileSlice). v.size) get_slice size alignment s addr)

unfoldable pub load : ℕ → ℕ → VolatileSlice → ℕ → Mem → Outcome Error (List ℕ)
unfolding get_atomic_ref get_slice load_bytes
load size alignment s addr m =
    map_ok (λ at. load_bytes m at size)
      (get_atomic_ref (λ (v : VolatileSlice). v.size) get_slice size alignment s addr)
