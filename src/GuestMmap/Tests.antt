-- ===== src/GuestMmap/Tests.antt =====
-- The guest memory of two regions of one process at concrete inputs.
use vm_memory.Base.{
  ℕ, ◌+◌, ◌%◌, ◌<◌, ◌≡◌, refl, sym, ◌∙◌, ◌↔◌, ◌⊎◌, Bool, true, false, none, some, List, [], ◌∷◌,
  ◌++◌, arith, length, panic, ok, Returns,
}
use vm_memory.Memory.{check_range}
use vm_memory.RemoteMem.Flat.{Space, tabulate, flat, flat_byte, length-tabulate, flat-IsProcessVm}
use vm_memory.Memory.Access.{IsGuestMemory}
use vm_memory.Memory.Range.{IsCovered, check_range_iff}
use vm_memory.Bytes.{got, Writer, RegionContainer}
use vm_memory.GuestBytes.WriteTo.{IsWriter, CopiesOut}
use vm_memory.Mmap.{GuestRegionMmap, region_mmap, find_region, memory_mmap}
use vm_memory.Mmap.Layout.{containing}
use vm_memory.Mmap.Find.{find_region-containing, memory_mmap-IsGuestMemory}
use vm_memory.Mmap.Sample.{low, high, two_regions, two_regions-IsWellFormed}
use vm_memory.GuestMmap.{IsMapped, guest_write}
use vm_memory.GuestMmap.Guard.{guest_write_past_region}
use vm_memory.GuestMmap.Copy.{region_byte, IsAccessible, guest_write_to-CopiesOut}
use vm_memory.GuestMmap.Atomics.{guest_store, guest_load, atomic_access_lem}
use vm_memory.AtomicTypes.{u32}
use vm_memory.RemoteMem.Chunk.{IsServed}
use vm_memory.GuestBytes
use vm_memory.RegionBytes

abbrev guest : IsGuestMemory region_mmap memory_mmap two_regions
guest = memory_mmap-IsGuestMemory two_regions two_regions-IsWellFormed

abbrev idle : Space → Space
idle s = s

-- Every byte is the low byte of its address.
abbrev space : Space
space pid a = a % 256

-- 32 bytes across both regions are memory; 33 are not.
check_range_iff_example :
    (b : Bool) × (check_range region_mmap memory_mmap two_regions 0x2000 32 ≡ ok b)
    × ((b ≡ true) ↔ IsCovered memory_mmap two_regions 0x2000 32)
check_range_iff_example =
    check_range_iff region_mmap memory_mmap two_regions guest 0x2000 32 (omega arith)

found_high : find_region two_regions 0x201e ≡ some high
found_high = find_region-containing two_regions 0x201e two_regions-IsWellFormed

found_low : find_region two_regions 0x2002 ≡ some low
found_low = find_region-containing two_regions 0x2002 two_regions-IsWellFormed

nothing_behind : find_region two_regions 0x2020 ≡ none
nothing_behind = find_region-containing two_regions 0x2020 two_regions-IsWellFormed

-- Four bytes, of which two belong to the region.
guest_write_past_region_example :
    (check_range region_mmap memory_mmap two_regions 0x201e 4 ≡ ok false)
    × ((guest_write flat idle two_regions (1 ∷ 2 ∷ 3 ∷ 4 ∷ []) 0x201e space).0 ≡ ok 4)
    × (flat_byte (guest_write flat idle two_regions (1 ∷ 2 ∷ 3 ∷ 4 ∷ []) 0x201e space).1 7 0x90010
        ≡ 3)
guest_write_past_region_example =
    guest_write_past_region flat flat_byte flat-IsProcessVm idle two_regions
      two_regions-IsWellFormed 0x201e (1 ∷ 2 ∷ 3 ∷ 4 ∷ []) space high found_high (omega arith)
      (omega arith) (omega arith) nothing_behind refl

abbrev bytes_of_two : RegionContainer GuestRegionMmap Space
bytes_of_two = RegionBytes.bytes_mmap flat idle

-- A writer that keeps all it is given.
abbrev kept : Writer (List ℕ)
kept = record { write = λ bs d. (got (length bs), d ++ bs); write_all = λ bs d. (got tt, d ++ bs) }

kept-IsWriter : IsWriter kept (λ d. d)
kept-IsWriter = record { write_all_got = λ bs d e. refl }

two_regions_mapped : (a : ℕ) (r : GuestRegionMmap) → find_region two_regions a ≡ some r → IsMapped r
two_regions_mapped a r e =
    let c : containing two_regions.regions a ≡ some r =
      sym (find_region-containing two_regions a two_regions-IsWellFormed) ∙ e in
    ground (arith, c)

two_regions-IsAccessible : IsAccessible flat flat_byte flat-IsProcessVm idle two_regions space
two_regions-IsAccessible = record {
  mapped = two_regions_mapped;
  reads = λ a r offset len e p. (
    tabulate (r.mapping.addr + offset) len (space r.pid),
    refl,
    length-tabulate (r.mapping.addr + offset) len (space r.pid),
  );
}

-- From the middle of one region into the next, and on past the end.
guest_write_to-CopiesOut_example :
    let (r, dst') =
      GuestBytes.write_to region_mmap memory_mmap bytes_of_two two_regions 1 kept space 0x200e 40
        [] in
    CopiesOut region_mmap memory_mmap bytes_of_two two_regions
      (region_byte flat_byte space)
      (λ d. d)
      space
      0x200e
      40
      []
      r
      dst'
guest_write_to-CopiesOut_example =
    guest_write_to-CopiesOut flat flat_byte flat-IsProcessVm idle two_regions space kept (λ d. d)
      0x200e 40 [] 1 two_regions-IsWellFormed two_regions-IsAccessible kept-IsWriter (λ bs d. refl)
      (omega arith)

abbrev word_bytes : List ℕ
word_bytes = 1 ∷ 2 ∷ 3 ∷ 4 ∷ []

-- The host address of the `u32` is 1 above a multiple of 8.
atomic_access_lem_example :
    ((IsServed 4 0x10001
        × Returns (guest_store flat idle two_regions word_bytes 0x2001 space).0
        × Returns (guest_load flat idle two_regions 4 0x2001 space))
      ⊎ ((¬ IsServed 4 0x10001)
          × (guest_store flat idle two_regions word_bytes 0x2001 space ≡ (panic, space))
          × (guest_load flat idle two_regions 4 0x2001 space ≡ panic)))
    × ((4 < 8)
        ⊎ ((guest_store flat idle two_regions word_bytes 0x2001 space ≡ (panic, space))
            × (guest_load flat idle two_regions 4 0x2001 space ≡ panic)))
atomic_access_lem_example =
    atomic_access_lem flat flat_byte flat-IsProcessVm idle two_regions two_regions-IsWellFormed
      0x2001 space low (find_region-containing two_regions 0x2001 two_regions-IsWellFormed)
      (omega arith) (omega arith) u32 word_bytes refl
