-- ===== src/Mmap/Sample.antt =====
-- A guest memory of two regions that meet in the guest and are far apart in the process, and a hole.
use vm_memory.Base.{ℕ, ◌%◌, true, none, [], ◌∷◌, arith}
use vm_memory.RemoteMem.Flat.{Space}
use vm_memory.MmapUnix.{MmapRegion}
use vm_memory.Mmap.{GuestRegionMmap, GuestMemoryMmap}
use vm_memory.Mmap.Layout.{IsWellFormed}

abbrev pub mapping_at : ℕ → ℕ → MmapRegion
mapping_at addr size = record {
  addr = addr;
  size = size;
  file_offset = none;
  prot = 3;
  flags = 34;
  owned = true;
  hugetlbfs = none;
}

abbrev pub low : GuestRegionMmap
low = record { mapping = mapping_at 0x10000 16; guest_base = 0x2000; pid = 7 }

abbrev pub high : GuestRegionMmap
high = record { mapping = mapping_at 0x90000 16; guest_base = 0x2010; pid = 7 }

abbrev pub apart : GuestRegionMmap
apart = record { mapping = mapping_at 0x50000 32; guest_base = 0x3000; pid = 7 }

abbrev pub two_regions : GuestMemoryMmap
two_regions = record { pid = 7; regions = low ∷ high ∷ [] }

pub two_regions-IsWellFormed : IsWellFormed two_regions
two_regions-IsWellFormed = omega arith

-- Every byte is the low byte of its address.
abbrev pub space : Space
space pid a = a % 256
