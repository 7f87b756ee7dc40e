-- ===== src/Region.antt =====
-- src/guest_memory.rs: the errors of guest memory, and the trait `GuestMemoryRegion` with its
-- provided methods. `as usize` and `as u64` change nothing on a 64-bit target.
pub mod Host
use vm_memory.Base.{ℕ, Bool, Option, none, some, ltb, if◌then◌else◌, wrapping_sub, and_then}
use vm_memory.Address.{checked_offset_from, checked_add, unchecked_add}
use vm_memory.RemoteMem

-- `guest_memory::Error`; an `io::Error` is a number.
pub data Error : Type 0 where
  invalid_guest_address : ℕ → Error
  io_error : ℕ → Error
  partial_buffer : ℕ → ℕ → Error
  invalid_backend_address host_address_not_available : Error
  remote_mem_error : RemoteMem.Error → Error

-- The required methods of `GuestMemoryRegion`.
pub record GuestMemoryRegion (R : Type 0) : Type 0 where
  pub len : R → ℕ
  pub start_addr : R → ℕ

module _ {R : Type 0} (g : GuestMemoryRegion R) where
  abbrev pub last_addr : R → ℕ
  last_addr r = unchecked_add (g.start_addr r) (wrapping_sub (g.len r) 1)

  abbrev pub address_in_range : R → ℕ → Bool
  address_in_range r addr = ltb addr (g.len r)

  abbrev pub check_address : R → ℕ → Option ℕ
  check_address r addr = if address_in_range r addr then some addr else none

  abbrev pub checked_offset : R → ℕ → ℕ → Option ℕ
  checked_offset r base offset = and_then (checked_add base offset) (check_address r)

  abbrev pub to_region_addr : R → ℕ → Option ℕ
  to_region_addr r addr = and_then (checked_offset_from addr (g.start_addr r)) (check_address r)
