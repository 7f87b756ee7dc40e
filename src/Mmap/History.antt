-- ===== src/Mmap/History.antt =====
-- A `GuestMemoryMmap` over any sequence of insertions and removals: it refines a partial function
-- from addresses to regions, in which a region is put in whole where all of its addresses are free,
-- and taken out whole by its base and size.
use vm_memory.Mmap.{
  Error, GuestRegionMmap, GuestMemoryMmap, insert_region, Search, found, insert_at, search_start,
  remove_sized, remove_searched, remove_region, picked, find_region,
}
use vm_memory.Base.{
  ℕ, ◌<◌, max, ◌≡◌, refl, ◌≢◌, ◌⊎◌, inl, inr, true, false, Option, none, some, List, [], ◌∷◌, arith,
  leb, if◌then◌else◌, Bool-cases, get_elem?, All, Outcome, panic, stuck, err, ok,
}
use mathlib.Core.Path.{subst}
use vm_memory.Mmap.Layout.{
  IsRegion, IsLaidOut, IsWellFormed, holds, containing, containing-holds, containing-IsRegion,
}
use vm_memory.Mmap.Find.{find_region-containing}
use vm_memory.Mmap.Insert.{end_of, Apart, insert_region_lem, insert_region_overlap}
use vm_memory.Mmap.Remove.{Matches, Removes, remove_region-Removes}

pub data Change : Type 0 where
  insert : GuestRegionMmap → Change
  remove : ℕ → ℕ → Change

-- The memory after a call, which is the old one where the call fails.
abbrev pub if_inserted : GuestMemoryMmap → Outcome Error GuestMemoryMmap → GuestMemoryMmap
if_inserted m (ok m') = m'
if_inserted m (err e) = m
if_inserted m panic = m
if_inserted m stuck = m

abbrev pub if_removed :
    GuestMemoryMmap → Outcome Error (GuestMemoryMmap × GuestRegionMmap) → GuestMemoryMmap
if_removed m (ok (m', r)) = m'
if_removed m (err e) = m
if_removed m panic = m
if_removed m stuck = m

abbrev pub change : GuestMemoryMmap → Change → GuestMemoryMmap
change m (insert x) = if_inserted m (insert_region m x)
change m (remove base size) = if_removed m (remove_region m base size)

unfoldable pub run : List Change → GuestMemoryMmap → GuestMemoryMmap
run [] m = m
run (c ∷ cs) m = run cs (change m c)

-- The abstract view of a memory.
abbrev pub View : Type 0
View = ℕ → Option GuestRegionMmap

abbrev pub IsFree : View → GuestRegionMmap → Type 0
IsFree f x = (a : ℕ) → holds x a ≡ true → f a ≡ none

abbrev pub IsTaken : View → GuestRegionMmap → Type 0
IsTaken f x = (a : ℕ) × (holds x a ≡ true) × (f a ≢ none)

-- What a change does to the view.
abbrev pub Changes : Change → View → View → Type 0
Changes (insert x) f g =
    (IsFree f x × ((a : ℕ) → g a ≡ (if holds x a then some x else f a)))
    ⊎ (IsTaken f x × ((a : ℕ) → g a ≡ f a))
Changes (remove base size) f g =
    ((r : GuestRegionMmap) × (f base ≡ some r)
      × Matches base size r
      × ((a : ℕ) → g a ≡ (if holds r a then none else f a)))
    ⊎ (((r : GuestRegionMmap) → f base ≡ some r → ¬ (Matches base size r)) × ((a : ℕ) → g a ≡ f a))

abbrev pub AllChange : List Change → View → View → Type 0
AllChange [] f g = (a : ℕ) → g a ≡ f a
AllChange (c ∷ cs) f g = (h : View) × Changes c f h × AllChange cs h g

-- The regions put in come from `GuestRegionMmap::new` and are not empty.
abbrev pub IsProper : Change → Type 0
IsProper (insert x) = IsRegion x
IsProper (remove base size) = Unit

-- Two regions are apart, or share the greater of their bases.
apart_cases :
    (x r : GuestRegionMmap) → Apart x r ⊎ ((x.guest_base < end_of r) × (r.guest_base < end_of x))
apart_cases x r = elim (Bool-cases (leb (end_of x) r.guest_base)) [
  | inl before ↦ inl (inl (ground arith))
  | inr meets ↦ elim (Bool-cases (leb (end_of r) x.guest_base)) [
    | inl behind ↦ inl (inr (ground arith))
    | inr both ↦ inr (ground arith)
  ]
]

abbrev MeetsIn : GuestRegionMmap → List GuestRegionMmap → Type 0
MeetsIn x rs = (a : ℕ) × (r : GuestRegionMmap) × (holds x a ≡ true) × (containing rs a ≡ some r)

MeetsIn-cons :
    (lo : ℕ) (x r : GuestRegionMmap) (rs : List GuestRegionMmap)
    → IsLaidOut lo (r ∷ rs)
    → MeetsIn x rs
    → MeetsIn x (r ∷ rs)
MeetsIn-cons lo x r rs h (a, q, inside, e) =
    let above = (containing-IsRegion (end_of r) a rs q h.2 e).0 in
    let held = containing-holds a rs q e in
    let out : holds r a ≡ false = ground arith in (a, q, inside, rw out e)

-- A region is apart from all others, or shares an address with one of them.
apart_or_meets :
    (lo : ℕ) (x : GuestRegionMmap) (rs : List GuestRegionMmap)
    → IsLaidOut lo rs
    → IsRegion x
    → All (Apart x) rs ⊎ MeetsIn x rs
apart_or_meets lo x [] h i = inl tt
apart_or_meets lo x (r ∷ rs) h i = elim (apart_cases x r) [
  | inr meets ↦
      let here : holds r (max x.guest_base r.guest_base) ≡ true = ground (arith, h.1.inhabited) in
      let inside : holds x (max x.guest_base r.guest_base) ≡ true = ground (arith, i.inhabited) in
      inr (max x.guest_base r.guest_base, r, inside, rw here refl)
  | inl apart ↦ elim (apart_or_meets (end_of r) x rs h.2 i) [
    | inl others ↦ inl (apart, others)
    | inr m ↦ inr (MeetsIn-cons lo x r rs h m)
  ]
]

-- A region that is apart shares no address.
apart-containing :
    (lo a : ℕ) (x : GuestRegionMmap) (rs : List GuestRegionMmap)
    → IsLaidOut lo rs
    → All (Apart x) rs
    → holds x a ≡ true
    → containing rs a ≡ none
apart-containing lo a x [] h apart e = refl
apart-containing lo a x (r ∷ rs) h apart e =
    let rest = apart-containing (end_of r) a x rs h.2 apart.1 e in
    let out : holds r a ≡ false = ground (arith, apart.0) in rw out rest

All-containing :
    (P : GuestRegionMmap → Type 0) (a : ℕ) (rs : List GuestRegionMmap) (r : GuestRegionMmap)
    → All P rs
    → containing rs a ≡ some r
    → P r
All-containing P a [] r h e = cc
All-containing P a (q ∷ rs) r h e = elim (Bool-cases (holds q a)) [
  | inl here ↦ let same : q ≡ r = ground arith in subst P same h.0
  | inr further ↦
      let rest : containing rs a ≡ some r = ground arith in All-containing P a rs r h.1 rest
]

-- What was removed is what the lookup found at its base.
removed_found :
    (m m' : GuestMemoryMmap) (base size : ℕ) (r : GuestRegionMmap)
    → remove_region m base size ≡ ok (m', r)
    → find_region m base ≡ some r
unfolding remove_region find_region
removed_found m m' base size r e = by_search (search_start m.regions base) e
  where
    by_sized :
        (i : ℕ) (o : Option GuestRegionMmap) → remove_sized m size i o ≡ ok (m', r) → o ≡ some r
    by_sized i none e = cc
    by_sized i (some q) e = ground arith

    by_search :
        (f : Search) → remove_searched m size f ≡ ok (m', r) → picked m.regions base f ≡ some r
    by_search (found i) e = by_sized i (get_elem? m.regions i) e
    by_search (insert_at i) e = cc

insert-Changes :
    (m : GuestMemoryMmap) (x : GuestRegionMmap)
    → IsWellFormed m
    → IsRegion x
    → IsWellFormed (change m (insert x))
      × Changes (insert x) (find_region m) (find_region (change m (insert x)))
insert-Changes m x h i = elim (apart_or_meets 0 x m.regions h i) [
  | inl apart ↦
      let (m', e, well, view) = insert_region_lem m x h i apart in
      rw e (
        well,
        inl (
          (λ a p. rw (find_region-containing m a h) (apart-containing 0 a x m.regions h apart p)),
          view,
        ),
      )
  | inr (a, r, inside, e) ↦
      let meets : ¬ All (Apart x) m.regions =
        λ apart. let free = apart-containing 0 a x m.regions h apart inside in cc in
      let taken : find_region m a ≢ none = λ free. let same = find_region-containing m a h in cc in
      rw (insert_region_overlap m x h i meets) (h, inr ((a, inside, taken), λ b. refl))
]

removed-Changes :
    (m : GuestMemoryMmap) (base size : ℕ)
    (o : Outcome vm_memory.Mmap.Error (GuestMemoryMmap × GuestRegionMmap))
    → IsWellFormed m
    → remove_region m base size ≡ o
    → Removes m base size o
    → IsWellFormed (if_removed m o)
      × Changes (remove base size) (find_region m) (find_region (if_removed m o))
removed-Changes m base size (ok (m', r)) h e (b, s, well, view) =
    (well, inl (r, removed_found m m' base size r e, (b, s), view))
removed-Changes m base size (err x) h e (same, none_matches) = (
  h,
  inr (
    (λ r at both.
        let there : containing m.regions base ≡ some r =
          rw (← find_region-containing m base h) at in
        All-containing (λ q. ¬ (Matches base size q)) base m.regions r none_matches there both),
    λ a. refl,
  ),
)
removed-Changes m base size panic h e x = absurd x
removed-Changes m base size stuck h e x = absurd x

change-Changes :
    (m : GuestMemoryMmap) (c : Change)
    → IsWellFormed m
    → IsProper c
    → IsWellFormed (change m c) × Changes c (find_region m) (find_region (change m c))
change-Changes m (insert x) h i = insert-Changes m x h i
change-Changes m (remove base size) h i =
    removed-Changes m base size (remove_region m base size) h refl
      (remove_region-Removes m base size h)

-- After any sequence of insertions and removals, in which every region put in has a size above 0 and
-- an end below 2 ^ 64, a well-formed memory is well formed, and its lookup is what the same changes make of the view: a region goes in where all of its addresses are free and
-- answers for these from then on, and is refused where one is taken; the region with a base and a size
-- goes out, and where there is none the view stays.
pub run-AllChange :
    (cs : List Change) (m : GuestMemoryMmap)
    → IsWellFormed m
    → All IsProper cs
    → IsWellFormed (run cs m) × AllChange cs (find_region m) (find_region (run cs m))
unfolding run
run-AllChange [] m h p = (h, λ a. refl)
run-AllChange (c ∷ cs) m h p =
    let (well, one) = change-Changes m c h p.0 in
    let (well', rest) = run-AllChange cs (change m c) well p.1 in
    (well', (find_region (change m c), one, rest))
