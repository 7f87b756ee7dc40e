-- ===== src/Mmap/Tests.antt =====
-- The collection of regions at concrete inputs.
use vm_memory.Base.{
  ℕ, ◌≡◌, refl, ◌≢◌, ◌↔◌, none, some, List, [], ◌∷◌, arith, if◌then◌else◌, All, ok,
}
use vm_memory.Mmap.{GuestMemoryMmap, from_arc_regions, insert_region, remove_region, find_region}
use vm_memory.Mmap.Layout.{IsRegion, IsLaidOut, IsWellFormed, holds, containing}
use vm_memory.Mmap.Find.{find_region-containing}
use vm_memory.Mmap.Create.{from_arc_regions_iff}
use vm_memory.Mmap.Insert.{Apart, insert_region_lem}
use vm_memory.Mmap.Remove.{Removes, remove_region-Removes, remove_region-insert_region}
use vm_memory.Mmap.Sample.{low, high, apart, two_regions, two_regions-IsWellFormed}
use vm_memory.Mmap.History.{Change, insert, remove, run, AllChange, run-AllChange}

find_run :
    (find_region two_regions 0x200f ≡ some low)
    × (find_region two_regions 0x2010 ≡ some high)
    × (find_region two_regions 0x2020 ≡ none)
unfolding find_region
find_run = (refl, refl, refl)

low-IsRegion : IsRegion low
low-IsRegion = omega arith

apart-IsRegion : IsRegion apart
apart-IsRegion = omega arith

apart-Apart : All (Apart apart) two_regions.regions
apart-Apart = omega arith

find_region-containing_example :
    find_region two_regions 0x2011 ≡ containing two_regions.regions 0x2011
find_region-containing_example = find_region-containing two_regions 0x2011 two_regions-IsWellFormed

from_arc_regions_iff_example : (from_arc_regions 7 (low ∷ high ∷ []) ≡ ok two_regions) ↔ (
    ((low ∷ high ∷ []) ≢ [])
    × IsLaidOut 0 (low ∷ high ∷ [])
    × (two_regions ≡ record { pid = 7; regions = low ∷ high ∷ [] }))
from_arc_regions_iff_example = from_arc_regions_iff 7 (low ∷ high ∷ []) two_regions (omega arith)

insert_region_lem_example :
    (m' : GuestMemoryMmap) × (insert_region two_regions apart ≡ ok m')
    × IsWellFormed m'
    × ((a : ℕ)
        → find_region m' a ≡ (if holds apart a then some apart else find_region two_regions a))
insert_region_lem_example =
    insert_region_lem two_regions apart two_regions-IsWellFormed apart-IsRegion apart-Apart

remove_region-Removes_example : Removes two_regions 0x2010 16 (remove_region two_regions 0x2010 16)
remove_region-Removes_example = remove_region-Removes two_regions 0x2010 16 two_regions-IsWellFormed

remove_region-insert_region_example :
    (m' : GuestMemoryMmap) × (insert_region two_regions apart ≡ ok m')
    × (remove_region m' 0x3000 32 ≡ ok (two_regions, apart))
remove_region-insert_region_example =
    remove_region-insert_region two_regions apart two_regions-IsWellFormed apart-IsRegion
      apart-Apart

-- The third region goes in, a second copy of it does not, and the second region goes out.
abbrev three_changes : List Change
three_changes = insert apart ∷ insert apart ∷ remove 0x2010 16 ∷ []

changed_run : run three_changes two_regions ≡ record { pid = 7; regions = low ∷ apart ∷ [] }
unfolding run insert_region remove_region
changed_run = refl

run-AllChange_example :
    IsWellFormed (run three_changes two_regions)
    × AllChange three_changes
        (find_region two_regions)
        (find_region (run three_changes two_regions))
run-AllChange_example =
    run-AllChange three_changes two_regions two_regions-IsWellFormed (omega arith)
