-- ===== src/Memory/Once.antt =====
-- `try_access` where the first call of the callback settles it.
use vm_memory.Base.{
  ℕ, ◌-◌, ◌<◌, min, ◌≡◌, some, arith, word, wrapping_add, wrapping_sub, Outcome, ok,
}
use vm_memory.Memory.{GuestMemory, try_access}
use vm_memory.Region.{Error, GuestMemoryRegion}
use vm_memory.Memory.Access.{IsGuestMemory}
use vm_memory.Region

module _ {M R S : Type 0} (g : GuestMemoryRegion R) (gm : GuestMemory M R) (m : M)
    (laws : IsGuestMemory g gm m) (count addr : ℕ) (count_u64 : count < word)
    (f : ℕ → ℕ → ℕ → R → S → Outcome Error ℕ × S) (s : S) where
  -- A callback that takes all at once ends the access, whatever part it was asked for.
  pub try_access_once :
      (r : R) (s' : S)
      → gm.find_region m addr ≡ some r
      → 0 < count
      → f 0 (min (g.len r - (addr - g.start_addr r)) count) (addr - g.start_addr r) r s
        ≡ (ok count, s')
      → try_access g gm m count addr f s ≡ (ok count, s')
  unfolding try_access
  try_access_once r s' e pos h =
      let inside = laws.found_in addr r e in
      let bound = laws.bounded addr r e in
      let start = addr - g.start_addr r in
      let at : Region.to_region_addr g r addr ≡ some start = ground arith in
      let cap : wrapping_sub (g.len r) start ≡ g.len r - start = omega arith in
      let rest : wrapping_sub count 0 ≡ count = omega arith in
      let total : wrapping_add 0 count ≡ count = omega arith in
      rw (e, at, cap, rest, h) (ground (arith, total))
