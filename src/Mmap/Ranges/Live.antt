-- ===== src/Mmap/Ranges/Live.antt =====
-- `from_ranges_with_files` always comes back, and the mappings that it leaves are those of the memory
-- that it returns.
use vm_memory.Base.{
  ℕ, ◌+◌, ◌≡◌, refl, ap, inl, inr, true, List, [], ◌∷◌, ◌++◌, arith, ltb, Bool-cases, word, Outcome,
  panic, stuck, err, ok, ◌>>◌, Returns,
}
use vm_memory.Mmap.{
  Error, GuestRegionMmap, GuestMemoryMmap, new_region, check_windows, from_arc_regions,
}
use vm_memory.Mmap.Ranges.{
  GuestRange, at_base, map_memory, after_range, map_ranges, memory_or_drop, assembled,
  from_ranges_with_files,
}
use vm_memory.Mmap.Ranges.Opened.{AllInhabited, IsOpened, from_ranges_with_files-IsOpened}
use vm_memory.Mmap.Ranges.Mappings.{
  one, held, held-append, IsOs, AllOwned, AllOwned-snoc, drop_live, drop_all_live, Maps,
  map_memory-Maps,
}
use vm_memory.MmapUnix.{MmapRegion, Os}
use vm_memory.MmapUnix

check_windows-Returns : (rs : List GuestRegionMmap) → Returns (check_windows rs)
unfolding check_windows
check_windows-Returns [] = tt
check_windows-Returns (r ∷ []) = tt
check_windows-Returns (r ∷ q ∷ rs) = ground (arith, check_windows-Returns (q ∷ rs))

-- `from_arc_regions` gives the regions or an error.
Keeps : List GuestRegionMmap → Outcome Error GuestMemoryMmap → Type 0
Keeps rs (ok m) = m.regions ≡ rs
Keeps rs (err e) = Unit
Keeps rs panic = ⊥
Keeps rs stuck = ⊥

from_arc_regions-Keeps : (pid : ℕ) (rs : List GuestRegionMmap) → Keeps rs (from_arc_regions pid rs)
unfolding from_arc_regions Keeps
from_arc_regions-Keeps pid [] = tt
from_arc_regions-Keeps pid (r ∷ rs) =
    by_check (check_windows (r ∷ rs)) (check_windows-Returns (r ∷ rs))
  where
    by_check :
        (o : Outcome Error (Unit {0}))
        → Returns o
        → Keeps (r ∷ rs) (o >> ok (record { pid = pid; regions = r ∷ rs }))
    by_check (ok u) h = refl
    by_check (err e) h = tt
    by_check panic h = h
    by_check stuck h = h

module _ {State : Type 0} (os : Os State) (live : State → ℕ → ℕ → ℕ) (laws : IsOs os live)
    (pid : ℕ) where
  -- A new region more, or the same mappings as in `s`.
  Regions : State → Outcome Error GuestRegionMmap × State → Type 0
  Regions s (ok r, s') =
      (r.mapping.owned ≡ true)
      × ((a n : ℕ) → live s' a n ≡ live s a n + one r.mapping.addr r.mapping.size a n)
  Regions s (err e, s') = (a n : ℕ) → live s' a n ≡ live s a n
  Regions s (panic, s') = ⊥
  Regions s (stuck, s') = ⊥

  at_base-Regions :
      (base : ℕ) (s : State) (o : Outcome MmapUnix.Error MmapRegion × State)
      → Maps os live laws pid s o
      → Regions s (at_base os pid base o)
  unfolding Regions Maps at_base new_region
  at_base-Regions base s (ok r, s') (owned, more) = elim (Bool-cases (ltb (base + r.size) word)) [
    | inl fits ↦ rw fits (owned, more)
    | inr wraps ↦ rw wraps (λ a n.
        let dropped = drop_live os live laws pid r s' a n owned in
        let before = more a n in omega (arith, dropped, before))
  ]
  at_base-Regions base s (err e, s') h = h
  at_base-Regions base s (panic, s') h = h
  at_base-Regions base s (stuck, s') h = h

  -- The mappings of the regions more than in `s`, or the same.
  Collects : State → Outcome Error (List GuestRegionMmap) × State → Type 0
  Collects s (ok rs, s') = AllOwned rs × ((a n : ℕ) → live s' a n ≡ live s a n + held rs a n)
  Collects s (err e, s') = (a n : ℕ) → live s' a n ≡ live s a n
  Collects s (panic, s') = ⊥
  Collects s (stuck, s') = ⊥

  after_range-Collects :
      (first s : State) (xs : List GuestRange) (made : List GuestRegionMmap)
      (o : Outcome Error GuestRegionMmap × State)
      → AllOwned made
      → ((a n : ℕ) → live s a n ≡ live first a n + held made a n)
      → ((r : GuestRegionMmap) (s' : State)
          → AllOwned (made ++ r ∷ [])
          → ((a n : ℕ) → live s' a n ≡ live first a n + held (made ++ r ∷ []) a n)
          → Collects first (map_ranges os pid xs (made ++ r ∷ []) s'))
      → Regions s o
      → Collects first (after_range os pid (map_ranges os pid xs) made o)
  unfolding Collects Regions
  after_range-Collects first s xs made (ok r, s') owned before further (own, more) =
      further r s' (AllOwned-snoc made r owned own) (λ a n.
        let all = held-append made (r ∷ []) a n in
        let step = more a n in let start = before a n in omega (arith, all, step, start))
  after_range-Collects first s xs made (err e, s') owned before further same = λ a n.
      let dropped = drop_all_live os live laws pid made s' a n owned in
      let step = same a n in let start = before a n in omega (arith, dropped, step, start)
  after_range-Collects first s xs made (panic, s') owned before further h = h
  after_range-Collects first s xs made (stuck, s') owned before further h = h

  map_ranges-Collects :
      (first s : State) (xs : List GuestRange) (made : List GuestRegionMmap)
      → AllOwned made
      → ((a n : ℕ) → live s a n ≡ live first a n + held made a n)
      → Collects first (map_ranges os pid xs made s)
  unfolding map_ranges Collects
  map_ranges-Collects first s [] made owned before = (owned, before)
  map_ranges-Collects first s (x ∷ xs) made owned before =
      after_range-Collects first s xs made
        (at_base os pid x.base (map_memory os pid x.size x.file s)) owned before
        (λ r s' owned' before'. map_ranges-Collects first s' xs (made ++ r ∷ []) owned' before')
        (at_base-Regions x.base s (map_memory os pid x.size x.file s)
          (map_memory-Maps os live laws pid x.size x.file s))

  -- A memory with its mappings, or the mappings of `s`.
  Assembles : State → Outcome Error GuestMemoryMmap × State → Type 0
  Assembles s (ok m, s') = (a n : ℕ) → live s' a n ≡ live s a n + held m.regions a n
  Assembles s (err e, s') = (a n : ℕ) → live s' a n ≡ live s a n
  Assembles s (panic, s') = ⊥
  Assembles s (stuck, s') = ⊥

  memory_or_drop-Assembles :
      (s s' : State) (rs : List GuestRegionMmap) (o : Outcome Error GuestMemoryMmap)
      → Keeps rs o
      → AllOwned rs
      → ((a n : ℕ) → live s' a n ≡ live s a n + held rs a n)
      → Assembles s (memory_or_drop os pid rs o s')
  unfolding Assembles Keeps
  memory_or_drop-Assembles s s' rs (ok m) same owned more = rw same more
  memory_or_drop-Assembles s s' rs (err e) k owned more = λ a n.
      let dropped = drop_all_live os live laws pid rs s' a n owned in
      let before = more a n in omega (arith, dropped, before)
  memory_or_drop-Assembles s s' rs panic k owned more = k
  memory_or_drop-Assembles s s' rs stuck k owned more = k

  assembled-Assembles :
      (s : State) (o : Outcome Error (List GuestRegionMmap) × State)
      → Collects s o
      → Assembles s (assembled os pid o)
  unfolding Collects Assembles
  assembled-Assembles s (ok rs, s') (owned, more) =
      memory_or_drop-Assembles s s' rs (from_arc_regions pid rs) (from_arc_regions-Keeps pid rs)
        owned more
  assembled-Assembles s (err e, s') h = h
  assembled-Assembles s (panic, s') h = h
  assembled-Assembles s (stuck, s') h = h

  -- What `from_ranges_with_files` gives, on every branch.
  abbrev pub Opens : List GuestRange → State → Outcome Error GuestMemoryMmap × State → Type 0
  Opens ranges s (ok m, s') =
      IsOpened os pid ranges m × ((a n : ℕ) → live s' a n ≡ live s a n + held m.regions a n)
  Opens ranges s (err e, s') = (a n : ℕ) → live s' a n ≡ live s a n
  Opens ranges s (panic, s') = ⊥
  Opens ranges s (stuck, s') = ⊥

  -- On a system where a call of `mmap` adds its mapping or fails and adds none, and `munmap` of a
  -- mapping takes out that one, for ranges that are not empty, `from_ranges_with_files` comes back: with the memory asked for,
  -- which has the process given, one region for each range, in their order, with its base, size and
  -- file, and is well formed, and with the mappings of its regions more than before; or with an
  -- error, and then every mapping that it made on the way is unmapped again.
  pub from_ranges_with_files-Opens :
      (ranges : List GuestRange) (s : State)
      → AllInhabited ranges
      → Opens ranges s (from_ranges_with_files os pid ranges s)
  unfolding from_ranges_with_files Assembles AllOwned
  from_ranges_with_files-Opens ranges s p =
      by_result (from_ranges_with_files os pid ranges s) refl (
        assembled-Assembles s (map_ranges os pid ranges [] s)
          (map_ranges-Collects s s ranges [] none_owned (λ a n. omega arith)))
    where
      none_owned : AllOwned []
      none_owned = tt

      by_result :
          (o : Outcome Error GuestMemoryMmap × State)
          → from_ranges_with_files os pid ranges s ≡ o
          → Assembles s o
          → Opens ranges s o
      by_result (ok m, s') e h =
          (from_ranges_with_files-IsOpened os pid ranges s m p (ap (λ t. t.0) e), h)
      by_result (err x, s') e h = h
      by_result (panic, s') e h = h
      by_result (stuck, s') e h = h
