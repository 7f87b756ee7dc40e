-- ===== src/Memory/Translate.antt =====
-- Guest addresses as a region with an offset.
use vm_memory.Base.{ℕ, ◌-◌, ◌<◌, ◌≡◌, refl, none, some, arith, ok}
use vm_memory.Memory.{GuestMemory, to_region_addr}
use vm_memory.Region.{GuestMemoryRegion}
use vm_memory.Memory.Access.{IsGuestMemory}
use vm_memory.Region

module _ {M R : Type 0} (g : GuestMemoryRegion R) (gm : GuestMemory M R) (m : M)
    (laws : IsGuestMemory g gm m) (addr : ℕ) where
  -- The `unwrap` in `to_region_addr` does not panic: at an address of a region the result is that
  -- region with the distance from its base, which is below its length, and elsewhere there is none.
  pub to_region_addr_lem :
      ((r : R)
        → gm.find_region m addr ≡ some r
        → (to_region_addr g gm m addr ≡ ok (some (r, addr - g.start_addr r)))
          × (addr - g.start_addr r < g.len r))
      × (gm.find_region m addr ≡ none → to_region_addr g gm m addr ≡ ok none)
  unfolding to_region_addr
  to_region_addr_lem = (
    λ r e.
        let inside = laws.found_in addr r e in
        let at : Region.to_region_addr g r addr ≡ some (addr - g.start_addr r) = ground arith in
        (rw (e, at) refl, omega (arith, inside)),
    λ e. rw e refl,
  )
