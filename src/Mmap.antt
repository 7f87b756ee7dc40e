-- ===== src/Mmap.antt =====
-- src/mmap.rs: `GuestRegionMmap`, a mapping at a guest address, and `GuestMemoryMmap`, the sorted
-- collection of such regions, with the constructors, the changes and the lookup. The regions are
-- never changed, so that an `Arc` is the region itself.
pub mod Layout
pub mod Find
pub mod Create
pub mod Insert
pub mod Remove
mod LastAddr
pub mod Ranges
pub mod History
pub mod Sample
mod Tests
use vm_memory.Base.{
  ℕ, zero, suc, Option, none, some, List, [], ◌∷◌, ◌++◌, ltb, leb, ◌==◌, if◌then◌else◌, length,
  get_elem?, add_checked, Outcome, panic, err, ok, ◌>>◌,
}
use vm_memory.Memory.{GuestMemory}
use vm_memory.Region.{GuestMemoryRegion}
use vm_memory.MmapUnix.{MmapRegion}
use vm_memory.Region
use vm_memory.MmapUnix

-- `mmap::Error`.
pub data Error : Type 0 where
  invalid_guest_region : Error
  mmap_region : MmapUnix.Error → Error
  no_memory_region memory_region_overlap unsorted_memory_regions : Error

pub record GuestRegionMmap : Type 0 where
  pub mapping : MmapRegion
  pub guest_base : ℕ
  pub pid : ℕ

pub record GuestMemoryMmap : Type 0 where
  pub pid : ℕ
  pub regions : List GuestRegionMmap

-- `impl GuestMemoryRegion for GuestRegionMmap`, the required methods.
abbrev pub region_mmap : GuestMemoryRegion GuestRegionMmap
region_mmap = record { len = λ r. r.mapping.size; start_addr = λ r. r.guest_base }

-- `GuestRegionMmap::new`; `end` is the checked sum.
abbrev pub region_ending : ℕ → MmapRegion → ℕ → Option ℕ → Outcome Error GuestRegionMmap
region_ending pid mapping guest_base none = err invalid_guest_region
region_ending pid mapping guest_base (some end) =
    ok (record { mapping = mapping; guest_base = guest_base; pid = pid })

pub new_region : ℕ → MmapRegion → ℕ → Outcome Error GuestRegionMmap
new_region pid mapping guest_base =
    region_ending pid mapping guest_base (add_checked guest_base mapping.size)

-- `GuestMemoryMmap::new`
pub new : ℕ → GuestMemoryMmap
new pid = record { pid = pid; regions = [] }

-- The loop over `regions.windows(2)`.
pub check_windows : List GuestRegionMmap → Outcome Error (Unit {0})
check_windows [] = ok tt
check_windows (r ∷ []) = ok tt
check_windows (prev ∷ next ∷ rest) =
    let others = check_windows (next ∷ rest) in
    if ltb next.guest_base prev.guest_base
    then err unsorted_memory_regions
    else if leb next.guest_base (Region.last_addr region_mmap prev)
    then err memory_region_overlap
    else others

pub from_arc_regions : ℕ → List GuestRegionMmap → Outcome Error GuestMemoryMmap
unfolding check_windows
from_arc_regions pid [] = err no_memory_region
from_arc_regions pid (r ∷ rs) =
    check_windows (r ∷ rs) >> ok (record { pid = pid; regions = r ∷ rs })

-- `sort_by_key(|x| x.start_addr())`, a stable sort.
pub insert_sorted : GuestRegionMmap → List GuestRegionMmap → List GuestRegionMmap
insert_sorted x [] = x ∷ []
insert_sorted x (y ∷ ys) =
    if leb x.guest_base y.guest_base then x ∷ y ∷ ys else y ∷ insert_sorted x ys

pub sort_by_start : List GuestRegionMmap → List GuestRegionMmap
unfolding insert_sorted
sort_by_start [] = []
sort_by_start (x ∷ xs) = insert_sorted x (sort_by_start xs)

unfoldable pub insert_region : GuestMemoryMmap → GuestRegionMmap → Outcome Error GuestMemoryMmap
unfolding sort_by_start from_arc_regions
insert_region m region = from_arc_regions m.pid (sort_by_start (m.regions ++ region ∷ []))

-- The `Ok` and the `Err` of `binary_search_by_key`.
pub data Search : Type 0 where
  found insert_at : ℕ → Search

abbrev pub shifted : Search → Search
shifted (found i) = found (suc i)
shifted (insert_at i) = insert_at (suc i)

-- What `binary_search_by_key(&key, |x| x.start_addr())` finds in a sorted list.
pub search_start : List GuestRegionMmap → ℕ → Search
search_start [] key = insert_at 0
search_start (x ∷ xs) key =
    if x.guest_base == key
    then found 0
    else if ltb x.guest_base key
    then shifted (search_start xs key)
    else insert_at 0

-- `regions.remove(i)`
pub remove_at : List GuestRegionMmap → ℕ → List GuestRegionMmap
remove_at [] i = []
remove_at (x ∷ xs) zero = xs
remove_at (x ∷ xs) (suc i) = x ∷ remove_at xs i

-- The body of `remove_region` for a region found, or not, at index `i`.
abbrev pub remove_sized :
    GuestMemoryMmap
    → ℕ
    → ℕ
    → Option GuestRegionMmap
    → Outcome Error (GuestMemoryMmap × GuestRegionMmap)
remove_sized m size i none = panic
remove_sized m size i (some region) =
    if region.mapping.size == size
    then ok (record { pid = m.pid; regions = remove_at m.regions i }, region)
    else err invalid_guest_region

abbrev pub remove_searched :
    GuestMemoryMmap → ℕ → Search → Outcome Error (GuestMemoryMmap × GuestRegionMmap)
remove_searched m size (found i) = remove_sized m size i (get_elem? m.regions i)
remove_searched m size (insert_at i) = err invalid_guest_region

unfoldable pub remove_region :
    GuestMemoryMmap → ℕ → ℕ → Outcome Error (GuestMemoryMmap × GuestRegionMmap)
unfolding remove_at search_start
remove_region m base size = remove_searched m size (search_start m.regions base)

-- A region that ends before `addr` is passed over.
abbrev pub if_reaches : ℕ → Option GuestRegionMmap → Option GuestRegionMmap
if_reaches addr none = none
if_reaches addr (some r) = if leb addr (Region.last_addr region_mmap r) then some r else none

-- The `match` of `find_region`. An index that the search gives is in the list.
abbrev pub picked : List GuestRegionMmap → ℕ → Search → Option GuestRegionMmap
picked regions addr (found x) = get_elem? regions x
picked regions addr (insert_at zero) = none
picked regions addr (insert_at (suc x)) = if_reaches addr (get_elem? regions x)

unfoldable pub find_region : GuestMemoryMmap → ℕ → Option GuestRegionMmap
unfolding search_start
find_region m addr = picked m.regions addr (search_start m.regions addr)

-- `impl GuestMemory for GuestMemoryMmap`, the required methods.
abbrev pub memory_mmap : GuestMemory GuestMemoryMmap GuestRegionMmap
memory_mmap = record {
  num_regions = λ m. length m.regions;
  find_region = find_region;
  iter = λ m. m.regions;
}
