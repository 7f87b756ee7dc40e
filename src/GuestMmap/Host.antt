-- ===== src/GuestMmap/Host.antt =====
-- src/mmap.rs: the methods of `GuestRegionMmap` that lead to memory of this process, and what those
-- of the guest memory give with them.
use vm_memory.Base.{ℕ, ◌-◌, ◌≡◌, refl, ap, none, some, arith, lt→ltb, panic, err, ok}
use vm_memory.Memory.Translate.{to_region_addr_lem}
use vm_memory.Region.{invalid_guest_address}
use vm_memory.Region.Host.{HostAccess}
use vm_memory.Mmap.{GuestRegionMmap, GuestMemoryMmap, region_mmap, find_region, memory_mmap}
use vm_memory.Mmap.Layout.{IsWellFormed}
use vm_memory.Mmap.Find.{memory_mmap-IsGuestMemory}
use vm_memory.GuestMmap.{host_of, IsMapped}
use vm_memory.RegionBytes
use vm_memory.Memory.Host

abbrev pub host_access : HostAccess GuestRegionMmap
host_access = record {
  get_host_address = RegionBytes.get_host_address;
  file_offset = λ r. r.mapping.file_offset;
  as_slice = λ r. none;
  as_mut_slice = λ r. none;
  get_slice = RegionBytes.get_slice;
  is_hugetlbfs = λ r. r.mapping.hugetlbfs;
}

-- An address of a region has the host address that the byte accesses use, and one outside of all
-- regions has none. `get_slice` panics at every address of a region.
host_access_lem :
    (m : GuestMemoryMmap) (addr count : ℕ)
    → IsWellFormed m
    → ((r : GuestRegionMmap)
        → find_region m addr ≡ some r
        → IsMapped r
        → (Host.get_host_address region_mmap memory_mmap host_access m addr ≡ ok (host_of r addr))
          × (Host.get_slice region_mmap memory_mmap host_access m addr count ≡ panic))
      × (find_region m addr ≡ none
          → (Host.get_host_address region_mmap memory_mmap host_access m addr
              ≡ err (invalid_guest_address addr))
            × (Host.get_slice region_mmap memory_mmap host_access m addr count
                ≡ err (invalid_guest_address addr)))
unfolding RegionBytes.get_host_address
host_access_lem m addr count well =
    let laws = memory_mmap-IsGuestMemory m well in
    let (found_in, found_none) = to_region_addr_lem region_mmap memory_mmap m laws addr in
    (
      λ r e mapped.
          let (at, inside) = found_in r e in
          let whole_sum : RegionBytes.host_addr r (addr - r.guest_base) ≡ host_of r addr =
            omega (arith, inside) in
          let below = lt→ltb _ _ inside in (rw (at, below) (ap ok whole_sum), rw at refl),
      λ e. (rw (found_none e) refl, rw (found_none e) refl),
    )
