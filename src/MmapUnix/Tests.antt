-- ===== src/MmapUnix/Tests.antt =====
-- Concrete mappings.
use vm_memory.Base.{ℕ, ◌≡◌, refl, ◌⊎◌, true, false, none, some, arith, ◌==◌, if◌then◌else◌}
use vm_memory.MmapUnix.{MmapRegion, build, build_raw, fds_overlap}
use vm_memory.MmapUnix.Sample.{small_files}
use vm_memory.MmapUnix.Overlap.{SharesByte, IsAliased, fds_overlap-SharesByte}
use vm_memory.MmapUnix.Build.{Builds, build-Builds}
use vm_memory.MmapUnix.Raw.{IsRaw, build_raw-IsRaw}

-- Two parts of the file 3 that share its bytes from 0x3000 to 0x4000.
abbrev part_at : ℕ → ℕ → MmapRegion
part_at start size = record {
  addr = 0x7f0000000000;
  size = size;
  file_offset = some (record { file = 3; start = start });
  prot = 3;
  flags = 1;
  owned = true;
  hugetlbfs = none;
}

-- Two descriptors for one file, and others for other files.
abbrev duplicated : ℕ → ℕ
duplicated fd = if fd == 4 then 3 else fd

fds_overlap-SharesByte_example :
    ((fds_overlap (part_at 0x1000 0x3000) (part_at 0x3000 0x2000) ≡ true)
      × SharesByte duplicated (part_at 0x1000 0x3000) (part_at 0x3000 0x2000))
    ⊎ ((fds_overlap (part_at 0x1000 0x3000) (part_at 0x3000 0x2000) ≡ false)
        × ((¬ SharesByte duplicated (part_at 0x1000 0x3000) (part_at 0x3000 0x2000))
            ⊎ IsAliased duplicated
                (some (record { file = 3; start = 0x1000 }))
                (some (record { file = 3; start = 0x3000 }))))
fds_overlap-SharesByte_example =
    fds_overlap-SharesByte duplicated (part_at 0x1000 0x3000) (part_at 0x3000 0x2000) (omega arith)
      (omega arith) (omega arith) (omega arith)

build-Builds_example :
    Builds small_files
      (some (record { file = 3; start = 0x7000 }))
      0x1000
      3
      1
      0x70000
      (build small_files (some (record { file = 3; start = 0x7000 })) 0x1000 3 1 0x70000)
build-Builds_example =
    build-Builds small_files (some (record { file = 3; start = 0x7000 })) 0x1000 3 1 0x70000

build_raw-IsRaw_example :
    IsRaw small_files 12
      (omega arith)
      refl
      0x3000
      0x1800
      3
      1
      (build_raw small_files 0x3000 0x1800 3 1)
build_raw-IsRaw_example = build_raw-IsRaw small_files 12 (omega arith) refl 0x3000 0x1800 3 1
