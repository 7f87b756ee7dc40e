-- ===== src/Memory/Host.antt =====
-- src/guest_memory.rs: `GuestMemory::get_host_address` and `get_slice`.
use vm_memory.Base.{ℕ, Outcome, ◌>>=◌, ok_or}
use vm_memory.Memory.{GuestMemory, to_region_addr}
use vm_memory.Region.{Error, invalid_guest_address, GuestMemoryRegion}
use vm_memory.Region.Host.{HostAccess}
use vm_memory.Volatile.{VolatileSlice}

module _ {M R : Type 0} (g : GuestMemoryRegion R) (gm : GuestMemory M R) (h : HostAccess R)
    (m : M) where
  -- `self.to_region_addr(addr).ok_or(Error::InvalidGuestAddress(addr))`
  abbrev pub region_addr : ℕ → Outcome Error (R × ℕ)
  region_addr addr =
      to_region_addr g gm m addr >>= λ found. ok_or found (invalid_guest_address addr)

  abbrev pub get_host_address : ℕ → Outcome Error ℕ
  get_host_address addr = region_addr addr >>= λ (r, a). h.get_host_address r a

  abbrev pub get_slice : ℕ → ℕ → Outcome Error VolatileSlice
  get_slice addr count = region_addr addr >>= λ (r, a). h.get_slice r a count
