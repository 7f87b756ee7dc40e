-- ===== src/Mmap/Ranges/Tests.antt =====
-- A guest memory of two ranges, the second one backed by a file.
use vm_memory.Base.{
  ℕ, ◌+◌, ◌-◌, ◌≡◌, refl, true, ◌&&◌, none, some, List, [], ◌∷◌, arith, ◌==◌, if◌then◌else◌, err,
  ok,
}
use vm_memory.Mmap.{
  memory_region_overlap, GuestRegionMmap, GuestMemoryMmap, new_region, from_arc_regions,
}
use vm_memory.Mmap.Ranges.{GuestRange, from_ranges_with_files, from_ranges}
use vm_memory.Mmap.Ranges.Mappings.{one, IsOs}
use vm_memory.Mmap.Ranges.Live.{Opens, from_ranges_with_files-Opens}
use vm_memory.RemoteMem.{done}
use vm_memory.MmapUnix.{Os, check_file_offset, build, from_file, drop_region}
use vm_memory.MmapUnix.Sample.{small_files}
use vm_memory.MmapUnix

abbrev two_ranges : List GuestRange
two_ranges =
    record { base = 0; size = 0x1000; file = none }
    ∷ record { base = 0x2000; size = 0x800; file = some (record { file = 3; start = 0x7000 }) }
    ∷ []

abbrev low : GuestRegionMmap
low = record {
  mapping = record {
    addr = 0x10000;
    size = 0x1000;
    file_offset = none;
    prot = 3;
    flags = 0x4022;
    owned = true;
    hugetlbfs = none;
  };
  guest_base = 0;
  pid = 7;
}

abbrev high : GuestRegionMmap
high = record {
  mapping = record {
    addr = 0x11000;
    size = 0x800;
    file_offset = some (record { file = 3; start = 0x7000 });
    prot = 3;
    flags = 0x4001;
    owned = true;
    hugetlbfs = none;
  };
  guest_base = 0x2000;
  pid = 7;
}

abbrev two_mapped : GuestMemoryMmap
two_mapped = record { pid = 7; regions = low ∷ high ∷ [] }

opening : (from_ranges_with_files small_files 7 two_ranges 0x10000).0 ≡ ok two_mapped
unfolding from_ranges_with_files new_region from_arc_regions build MmapUnix.new from_file
    check_file_offset
opening = refl

-- A system that knows its mappings: the next address, and the address and size of each.
abbrev Mapped : Type 0
Mapped = ℕ × List (ℕ × ℕ)

abbrev without_mapping : ℕ → ℕ → List (ℕ × ℕ) → List (ℕ × ℕ)
without_mapping addr size [] = []
without_mapping addr size ((a, n) ∷ ms) =
    let others = without_mapping addr size ms in
    if addr == a && size == n then ms else (a, n) ∷ others

abbrev counted : List (ℕ × ℕ) → ℕ → ℕ → ℕ
counted [] a n = 0
counted ((addr, size) ∷ ms) a n = one addr size a n + counted ms a n

abbrev tracking : Os Mapped
tracking = record {
  file_len = λ fd s. some 0x8000;
  mmap = λ size prot flags fd offset (next, ms). (done next, (next + size, (next, size) ∷ ms));
  munmap = λ addr size (next, ms). (next, without_mapping addr size ms);
  page_size = 4096;
  prot_read = 1;
  prot_write = 2;
  map_anonymous = 0x20;
  map_noreserve = 0x4000;
  map_private = 2;
  map_shared = 1;
  map_fixed_bit = 0x10;
}

counted-without_mapping :
    (addr size : ℕ) (ms : List (ℕ × ℕ)) (a n : ℕ)
    → counted (without_mapping addr size ms) a n ≡ counted ms a n - one addr size a n
counted-without_mapping addr size [] a n = omega arith
counted-without_mapping addr size ((b, k) ∷ ms) a n =
    ground (arith, counted-without_mapping addr size ms a n)

tracking-IsOs : IsOs tracking (λ (next, ms). counted ms)
tracking-IsOs = record {
  maps = λ size prot flags fd offset addr (next, ms) e a n. ground arith;
  fails = λ size prot flags fd offset e (next, ms) x a n. cc;
  unmaps = λ addr size (next, ms) a n. counted-without_mapping addr size ms a n;
}

-- Ranges that overlap: both mappings are made, and none is left.
none_left :
    from_ranges tracking 7 ((0, 0x1000) ∷ (0x800, 0x1000) ∷ []) (0x10000, [])
    ≡ (err memory_region_overlap, (0x12000, []))
unfolding from_ranges new_region from_arc_regions build MmapUnix.new from_file check_file_offset
    drop_region
none_left = refl

from_ranges_with_files-Opens_example :
    Opens tracking
      (λ (next, ms). counted ms)
      tracking-IsOs
      7
      two_ranges
      (0x10000, [])
      (from_ranges_with_files tracking 7 two_ranges (0x10000, []))
from_ranges_with_files-Opens_example =
    from_ranges_with_files-Opens tracking (λ (next, ms). counted ms) tracking-IsOs 7 two_ranges
      (0x10000, []) (omega arith)
