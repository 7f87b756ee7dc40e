-- ===== src/Volatile.antt =====
-- src/volatile_memory.rs: `VolatileSlice`, the provided methods of `VolatileMemory`, `VolatileRef`
-- and `VolatileArrayRef`, over the memory of `CopySlice`. A type `T` is its size (and alignment), a
-- value of it the list of its bytes, a buffer of values the list of them.
pub mod Access
pub mod Bounds
pub mod Array
pub mod Elements
pub mod Atomic
pub mod ReadWrite
pub mod Streams
pub mod ByteCopy
pub mod Tests
use vm_memory.Base.{
  ℕ, ◌*◌, ◌^◌, bit_and, ◌&&◌, Option, none, some, ltb, ◌==◌, if◌then◌else◌, wrapping_add,
  wrapping_sub, wrapping_mul, add_checked, sub_checked, Outcome, panic, stuck, err, ok, ◌>>=◌, ◌>>◌,
  ok_or,
}
use vm_memory.CopySlice.{alignment}

pub data Error : Type 0 where
  out_of_bounds : (addr : ℕ) → Error
  overflow : (base offset : ℕ) → Error
  too_big : (nelements size : ℕ) → Error
  misaligned : (addr alignment : ℕ) → Error
  io_error : ℕ → Error
  partial_buffer : (expected completed : ℕ) → Error

unfoldable pub compute_offset : ℕ → ℕ → Outcome Error ℕ
compute_offset base by = ok_or (add_checked base by) (overflow base by)

pub record VolatileSlice : Type 0 where
  pub addr : ℕ
  pub size : ℕ

-- `VolatileArrayRef<T>`; a `VolatileRef<T>` is its address.
pub record VolatileArrayRef : Type 0 where
  pub addr : ℕ
  pub nelem : ℕ

abbrev pub end_in_bounds : ℕ → ℕ → Outcome Error ℕ
end_in_bounds len mem_end = if ltb len mem_end then err (out_of_bounds mem_end) else ok mem_end

-- `VolatileMemory::compute_end_offset`, of a memory of `len` bytes.
unfoldable pub compute_end_offset : ℕ → ℕ → ℕ → Outcome Error ℕ
unfolding compute_offset
compute_end_offset len base by = compute_offset base by >>= end_in_bounds len

-- `get_slice` of a `&mut [u8]` or a `VolatileSlice` of `len` bytes at `addr`.
unfoldable pub get_slice : VolatileSlice → ℕ → ℕ → Outcome Error VolatileSlice
unfolding compute_end_offset
get_slice s start count = compute_end_offset s.size start count >>= λ _.
    ok (record { addr = wrapping_add s.addr start; size = count })

unfoldable pub check_alignment : VolatileSlice → ℕ → Outcome Error (Unit {0})
check_alignment s alignment =
    if bit_and s.addr (wrapping_sub alignment 1) == 0
    then ok tt
    else err (misaligned s.addr alignment)

unfoldable pub offset : VolatileSlice → ℕ → Outcome Error VolatileSlice
offset s count = do
  new_addr ← ok_or (add_checked s.addr count) (overflow s.addr count)
  new_size ← ok_or (sub_checked s.size count) (out_of_bounds new_addr)
  ok (record { addr = new_addr; size = new_size })

unfoldable pub split_at : VolatileSlice → ℕ → Outcome Error (VolatileSlice × VolatileSlice)
unfolding offset
split_at s mid = offset s mid >>= λ rest. ok (record { addr = s.addr; size = mid }, rest)

unfoldable pub subslice : VolatileSlice → ℕ → ℕ → Outcome Error VolatileSlice
unfolding compute_offset
subslice s start count = compute_offset start count >>= end_in_bounds s.size >>= λ _.
    ok (record { addr = wrapping_add s.addr start; size = count })

-- The provided methods of `VolatileMemory`, over any `len` and `get_slice`.
module _ {V : Type 0} (len : V → ℕ) (get : V → ℕ → ℕ → Outcome Error VolatileSlice) where
  unfoldable pub as_volatile_slice : V → Outcome Error VolatileSlice
  as_volatile_slice v = unwrap_ok (get v 0 (len v))
    where
      unwrap_ok : Outcome Error VolatileSlice → Outcome Error VolatileSlice
      unwrap_ok (ok s) = ok s
      unwrap_ok (err e) = panic
      unwrap_ok panic = panic
      unwrap_ok stuck = stuck

  unfoldable pub get_ref : ℕ → V → ℕ → Outcome Error ℕ
  get_ref size v start = get v start size >>= λ s. ok s.addr

  -- `isize::try_from(n).ok().and_then(|n| n.checked_mul(size))`
  abbrev pub array_bytes : ℕ → ℕ → Option ℕ
  array_bytes size n = if ltb n (2 ^ 63) && ltb (n * size) (2 ^ 63) then some (n * size) else none

  unfoldable pub get_array_ref : ℕ → V → ℕ → ℕ → Outcome Error VolatileArrayRef
  get_array_ref size v start n = do
    nbytes ← ok_or (array_bytes size n) (too_big n size)
    s ← get v start nbytes
    ok (record { addr = s.addr; nelem = n })

  -- `aligned_as_ref`, `aligned_as_mut` and `get_atomic_ref`.
  unfoldable pub get_atomic_ref : ℕ → ℕ → V → ℕ → Outcome Error ℕ
  unfolding check_alignment
  get_atomic_ref size alignment v start = do
    s ← get v start size
    check_alignment s alignment
    ok s.addr

-- `to_slice` of the two references.
abbrev pub ref_to_slice : ℕ → ℕ → VolatileSlice
ref_to_slice size addr = record { addr = addr; size = size }

unfoldable pub array_to_slice : ℕ → VolatileArrayRef → VolatileSlice
array_to_slice size a = record { addr = a.addr; size = wrapping_mul a.nelem size }

unfoldable pub ref_at : ℕ → VolatileArrayRef → ℕ → Outcome Error ℕ
ref_at size a index =
    if ltb index a.nelem then ok (wrapping_add a.addr (wrapping_mul size index)) else panic

-- `From<VolatileSlice>` for `VolatileArrayRef<u8>`.
abbrev pub from_slice : VolatileSlice → VolatileArrayRef
from_slice s = record { addr = s.addr; nelem = s.size }
