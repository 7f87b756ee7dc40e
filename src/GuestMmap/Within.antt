-- ===== src/GuestMmap/Within.antt =====
-- Reads and writes of a `GuestMemoryMmap` that stay inside one region, however much the system calls
-- transfer.
pub mod Write
pub mod Read
pub mod Slices
pub mod Objects
mod Tests
use vm_memory.Base.{ℕ, ◌+◌, ◌≤◌, ◌<◌, ◌≡◌, ◌⊎◌, inl, inr, some, arith}
use vm_memory.Mmap.{GuestRegionMmap, GuestMemoryMmap, find_region}
use vm_memory.Mmap.Layout.{IsWellFormed}
use vm_memory.Mmap.Find.{memory_mmap-IsGuestMemory}

module _ (m : GuestMemoryMmap) (well : IsWellFormed m) (addr count : ℕ) (r : GuestRegionMmap)
    (at : find_region m addr ≡ some r) (within : addr + count ≤ r.guest_base + r.mapping.size) where
  -- Every address that the access asks for lies in the region.
  pub region_here :
      (total : ℕ)
      → (total < count) ⊎ ((total ≡ 0) × (count ≡ 0))
      → find_region m (addr + total) ≡ some r
  region_here total (inl more) =
      let inside = (memory_mmap-IsGuestMemory m well).found_in addr r at in
      (memory_mmap-IsGuestMemory m well).found_whole addr (addr + total) r at
        (omega (arith, inside)) (omega (arith, inside))
  region_here total (inr (z, nothing)) = let here : addr + total ≡ addr = omega arith in rw here at
