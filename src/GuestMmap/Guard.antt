-- ===== src/GuestMmap/Guard.antt =====
-- What the accesses of the guest memory do not guard against.
use vm_memory.Base.{
  ℕ, ◌+◌, ◌-◌, ◌<◌, ◌≡◌, inl, inr, false, none, some, List, arith, Bool-cases, length, get_or, word,
  ok,
}
use vm_memory.RemoteMem.{done, ProcessVm, IsProcessVm}
use vm_memory.Mmap.{GuestRegionMmap, GuestMemoryMmap, region_mmap, find_region, memory_mmap}
use vm_memory.Mmap.Layout.{IsWellFormed}
use vm_memory.Mmap.Find.{memory_mmap-IsGuestMemory}
use vm_memory.GuestMmap.{host_of, IsMapped, guest_write, guest_write_lem}
use vm_memory.Memory.Range
use vm_memory.Memory

module _ {State : Type 0} (vm : ProcessVm State) (byte : State → ℕ → ℕ → ℕ)
    (laws : IsProcessVm vm byte) (others : State → State) (m : GuestMemoryMmap)
    (well : IsWellFormed m) (addr : ℕ) (buf : List ℕ) (s : State) (r : GuestRegionMmap)
    (at : find_region m addr ≡ some r) (mapped : IsMapped r) (short : length buf < word) where
  -- A buffer that is longer than what is left of its region is written past the end of the mapping:
  -- where no region follows, `check_range` refuses the range, and yet the write, if its system call
  -- transfers the buffer, returns the full length, and the first byte behind the mapping is changed
  -- to one of the buffer.
  pub guest_write_past_region :
      r.guest_base + r.mapping.size < addr + length buf
      → find_region m (r.guest_base + r.mapping.size) ≡ none
      → (vm.writev r.pid (host_of r addr) buf s).0 ≡ done (length buf)
      → (Memory.check_range region_mmap memory_mmap m addr (length buf) ≡ ok false)
        × ((guest_write vm others m buf addr s).0 ≡ ok (length buf))
        × (byte (guest_write vm others m buf addr s).1 r.pid (r.mapping.addr + r.mapping.size)
            ≡ get_or buf (r.guest_base + r.mapping.size - addr) 0)
  guest_write_past_region over hole e =
      let guest = memory_mmap-IsGuestMemory m well in
      let inside = guest.found_in addr r at in
      let wrote =
        guest_write_lem vm byte laws others m well addr buf s r at mapped short (omega arith) e in
      let (b, checked, iff) =
        Range.check_range_iff region_mmap memory_mmap m guest addr (length buf) short in
      let at_end : addr + (r.guest_base + r.mapping.size - addr) ≡ r.guest_base + r.mapping.size =
        omega arith in
      (
        elim (Bool-cases b) [
          | inr no_range ↦ rw (← no_range) checked
          | inl whole ↦ cc (
              rw (at_end, hole) at
                (iff.0 whole (r.guest_base + r.mapping.size - addr) (omega arith)))
        ],
        wrote.0,
        ground (arith, wrote.1 r.pid (r.mapping.addr + r.mapping.size)),
      )
