-- ===== src/Mmap/Ranges.antt =====
-- src/mmap.rs: `from_ranges_with_files` and `from_ranges`, which map the memory of a guest. A region
-- that is not handed on is dropped, and its mapping with it.
pub mod Opened
pub mod Mappings
pub mod Live
mod Tests
use vm_memory.Base.{ℕ, Option, none, some, List, [], ◌∷◌, ◌++◌, map, Outcome, panic, stuck, err, ok}
use vm_memory.Mmap.{
  Error, mmap_region, GuestRegionMmap, GuestMemoryMmap, new_region, from_arc_regions,
}
use vm_memory.MmapUnix.{FileOffset, MmapRegion, Os, from_file, drop_region}
use vm_memory.MmapUnix

-- A tuple of `ranges`.
pub record GuestRange : Type 0 where
  pub base : ℕ
  pub size : ℕ
  pub file : Option FileOffset

module _ {State : Type 0} (os : Os State) (pid : ℕ) where
  abbrev pub drop_all : List GuestRegionMmap → State → State
  drop_all [] s = s
  drop_all (r ∷ rs) s = drop_all rs (drop_region os r.mapping s)

  abbrev pub region_or_drop :
      MmapRegion → Outcome Error GuestRegionMmap → State → Outcome Error GuestRegionMmap × State
  region_or_drop mapping (ok r) s = (ok r, s)
  region_or_drop mapping (err e) s = (err e, drop_region os mapping s)
  region_or_drop mapping panic s = (panic, s)
  region_or_drop mapping stuck s = (stuck, s)

  -- `.map_err(Error::MmapRegion).and_then(|r| GuestRegionMmap::new(pid, r, guest_base))`
  unfoldable pub at_base :
      ℕ → Outcome MmapUnix.Error MmapRegion × State → Outcome Error GuestRegionMmap × State
  at_base guest_base (ok r, s) = region_or_drop r (new_region pid r guest_base) s
  at_base guest_base (err e, s) = (err (mmap_region e), s)
  at_base guest_base (panic, s) = (panic, s)
  at_base guest_base (stuck, s) = (stuck, s)

  unfoldable pub map_memory :
      ℕ → Option FileOffset → State → Outcome MmapUnix.Error MmapRegion × State
  map_memory size (some f_off) s = from_file os f_off size s
  map_memory size none s = MmapUnix.new os size s

  abbrev pub after_range :
      (List GuestRegionMmap → State → Outcome Error (List GuestRegionMmap) × State)
      → List GuestRegionMmap
      → Outcome Error GuestRegionMmap × State
      → Outcome Error (List GuestRegionMmap) × State
  after_range rest made (ok r, s) = rest (made ++ r ∷ []) s
  after_range rest made (err e, s) = (err e, drop_all made s)
  after_range rest made (panic, s) = (panic, s)
  after_range rest made (stuck, s) = (stuck, s)

  -- `collect`, which stops at the first error; `made` are the regions so far.
  unfoldable pub map_ranges :
      List GuestRange → List GuestRegionMmap → State → Outcome Error (List GuestRegionMmap) × State
  unfolding at_base map_memory
  map_ranges [] made s = (ok made, s)
  map_ranges (x ∷ xs) made s =
      after_range (map_ranges xs) made (at_base x.base (map_memory x.size x.file s))

  abbrev pub memory_or_drop :
      List GuestRegionMmap
      → Outcome Error GuestMemoryMmap
      → State
      → Outcome Error GuestMemoryMmap × State
  memory_or_drop regions (ok m) s = (ok m, s)
  memory_or_drop regions (err e) s = (err e, drop_all regions s)
  memory_or_drop regions panic s = (panic, s)
  memory_or_drop regions stuck s = (stuck, s)

  abbrev pub assembled :
      Outcome Error (List GuestRegionMmap) × State → Outcome Error GuestMemoryMmap × State
  assembled (ok regions, s) = memory_or_drop regions (from_arc_regions pid regions) s
  assembled (err e, s) = (err e, s)
  assembled (panic, s) = (panic, s)
  assembled (stuck, s) = (stuck, s)

  unfoldable pub from_ranges_with_files :
      List GuestRange → State → Outcome Error GuestMemoryMmap × State
  unfolding map_ranges
  from_ranges_with_files ranges s = assembled (map_ranges ranges [] s)

  unfoldable pub from_ranges : List (ℕ × ℕ) → State → Outcome Error GuestMemoryMmap × State
  unfolding from_ranges_with_files
  from_ranges ranges s =
      from_ranges_with_files
        (map (λ (r : ℕ × ℕ). record { base = r.0; size = r.1; file = none }) ranges) s
