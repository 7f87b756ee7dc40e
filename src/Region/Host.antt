-- ===== src/Region/Host.antt =====
-- src/guest_memory.rs: the provided methods of `GuestMemoryRegion` that lead to memory of this
-- process or tell of the backing, which an implementation may replace.
use vm_memory.Base.{ℕ, Bool, Option, none, Outcome, err}
use vm_memory.Region.{
  Error, io_error, partial_buffer, invalid_backend_address, host_address_not_available,
  GuestMemoryRegion,
}
use vm_memory.Volatile
use vm_memory.Volatile.{VolatileSlice}
use vm_memory.MmapUnix.{FileOffset}

-- A slice of bytes is its address and length, as a `VolatileSlice` is.
pub record HostAccess (R : Type 0) : Type 0 where
  pub get_host_address : R → ℕ → Outcome Error ℕ
  pub file_offset : R → Option FileOffset
  pub as_slice : R → Option VolatileSlice
  pub as_mut_slice : R → Option VolatileSlice
  pub get_slice : R → ℕ → ℕ → Outcome Error VolatileSlice
  pub is_hugetlbfs : R → Option Bool

-- The bodies in the trait.
abbrev pub provided : {R : Type 0} → HostAccess R
provided = record {
  get_host_address = λ r addr. err host_address_not_available;
  file_offset = λ r. none;
  as_slice = λ r. none;
  as_mut_slice = λ r. none;
  get_slice = λ r start count. err host_address_not_available;
  is_hugetlbfs = λ r. none;
}

module _ {R : Type 0} (g : GuestMemoryRegion R) (h : HostAccess R) where
  abbrev pub as_volatile_slice : R → Outcome Error VolatileSlice
  as_volatile_slice r = h.get_slice r 0 (g.len r)

-- `From<volatile_memory::Error>`
abbrev pub from_volatile : Volatile.Error → Error
from_volatile (Volatile.out_of_bounds addr) = invalid_backend_address
from_volatile (Volatile.overflow base offset) = invalid_backend_address
from_volatile (Volatile.too_big nelements size) = invalid_backend_address
from_volatile (Volatile.misaligned addr alignment) = invalid_backend_address
from_volatile (Volatile.io_error e) = io_error e
from_volatile (Volatile.partial_buffer expected completed) = partial_buffer expected completed
