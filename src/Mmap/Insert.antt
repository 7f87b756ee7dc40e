-- ===== src/Mmap/Insert.antt =====
-- `insert_region`: a region that is apart from the others is added, any other is refused.
use vm_memory.Base.{
  ℕ, ◌+◌, ◌≤◌, ◌≡◌, refl, ◌∙◌, ◌≢◌, ◌⊎◌, inl, inr, some, List, [], ◌∷◌, ◌++◌, arith, ltb,
  if◌then◌else◌, Bool-cases, All, err, ok,
}
use vm_memory.Mmap.{
  memory_region_overlap, GuestRegionMmap, GuestMemoryMmap, from_arc_regions, sort_by_start,
  insert_region, find_region,
}
use vm_memory.Mmap.Layout.{IsRegion, IsLaidOut, IsWellFormed, holds, containing}
use vm_memory.Mmap.Find.{find_region-containing}
use vm_memory.Mmap.Create.{from_arc_regions_iff, IsSorted, from_arc_regions_overlap}

abbrev pub end_of : GuestRegionMmap → ℕ
end_of r = r.guest_base + r.mapping.size

abbrev pub Apart : GuestRegionMmap → GuestRegionMmap → Type 0
Apart x r = (end_of x ≤ r.guest_base) ⊎ (end_of r ≤ x.guest_base)

-- The place of a new region in a sorted list.
abbrev pub placed : GuestRegionMmap → List GuestRegionMmap → List GuestRegionMmap
placed x [] = x ∷ []
placed x (r ∷ rs) = if ltb x.guest_base r.guest_base then x ∷ r ∷ rs else r ∷ placed x rs

sort_by_start-placed :
    (lo : ℕ) (x : GuestRegionMmap) (rs : List GuestRegionMmap)
    → IsLaidOut lo rs
    → sort_by_start (rs ++ x ∷ []) ≡ placed x rs
unfolding sort_by_start
sort_by_start-placed lo x [] h = refl
sort_by_start-placed lo x (r ∷ []) h = ground arith
sort_by_start-placed lo x (r ∷ q ∷ rs) h =
    rw (sort_by_start-placed (end_of r) x (q ∷ rs) h.2) (ground arith)

pub placed-IsLaidOut :
    (lo : ℕ) (x : GuestRegionMmap) (rs : List GuestRegionMmap)
    → IsLaidOut lo rs
    → lo ≤ x.guest_base
    → IsRegion x
    → All (Apart x) rs
    → IsLaidOut lo (placed x rs)
placed-IsLaidOut lo x [] h p i a = (p, i, tt)
placed-IsLaidOut lo x (r ∷ rs) h p i a = elim (Bool-cases (ltb x.guest_base r.guest_base)) [
  | inl before ↦ rw before (p, i, (ground (arith, a.0, h.1.inhabited), h.1, h.2))
  | inr after ↦
      rw after
        (h.0, h.1, placed-IsLaidOut (end_of r) x rs h.2 (ground (arith, a.0, i.inhabited)) i a.1)
]

IsLaidOut-IsSorted :
    (lo lo' : ℕ) (rs : List GuestRegionMmap) → lo' ≤ lo → IsLaidOut lo rs → IsSorted lo' rs
IsLaidOut-IsSorted lo lo' [] p h = tt
IsLaidOut-IsSorted lo lo' (r ∷ rs) p h =
    (omega arith, IsLaidOut-IsSorted (end_of r) r.guest_base rs (omega arith) h.2)

-- A sorted collection stays sorted.
placed-IsSorted :
    (lo hi : ℕ) (x : GuestRegionMmap) (rs : List GuestRegionMmap)
    → lo ≤ hi
    → IsLaidOut hi rs
    → lo ≤ x.guest_base
    → IsSorted lo (placed x rs)
placed-IsSorted lo hi x [] l h p = (p, tt)
placed-IsSorted lo hi x (r ∷ rs) l h p = elim (Bool-cases (ltb x.guest_base r.guest_base)) [
  | inl before ↦
      rw before (p, (ground arith, IsLaidOut-IsSorted (end_of r) r.guest_base rs (omega arith) h.2))
  | inr after ↦ rw after (
    omega (arith, h.0),
    placed-IsSorted r.guest_base (end_of r) x rs (omega arith) h.2 (ground arith),
  )
]

IsLaidOut-Apart :
    (lo : ℕ) (x : GuestRegionMmap) (rs : List GuestRegionMmap)
    → IsLaidOut lo rs
    → end_of x ≤ lo
    → All (Apart x) rs
IsLaidOut-Apart lo x [] h p = tt
IsLaidOut-Apart lo x (r ∷ rs) h p =
    (inl (omega (arith, h.0)), IsLaidOut-Apart (end_of r) x rs h.2 (omega (arith, h.0)))

pub le-placed :
    (lo : ℕ) (x : GuestRegionMmap) (rs : List GuestRegionMmap)
    → IsLaidOut lo (placed x rs)
    → lo ≤ x.guest_base
le-placed lo x [] h = h.0
le-placed lo x (r ∷ rs) h = elim (Bool-cases (ltb x.guest_base r.guest_base)) [
  | inl before ↦ (rw before at h).0
  | inr after ↦ let l = rw after at h in omega (arith, l.0, le-placed (end_of r) x rs l.2)
]

-- Only apart from the others is there a place.
placed-Apart :
    (lo : ℕ) (x : GuestRegionMmap) (rs : List GuestRegionMmap)
    → IsLaidOut lo (placed x rs)
    → All (Apart x) rs
placed-Apart lo x [] h = tt
placed-Apart lo x (r ∷ rs) h = elim (Bool-cases (ltb x.guest_base r.guest_base)) [
  | inl before ↦
      let l = rw before at h in
      (inl l.2.0, IsLaidOut-Apart (end_of r) x rs l.2.2 (omega (arith, l.2.0)))
  | inr after ↦
      let l = rw after at h in
      (inr (le-placed (end_of r) x rs l.2), placed-Apart (end_of r) x rs l.2)
]

containing-placed :
    (lo a : ℕ) (x : GuestRegionMmap) (rs : List GuestRegionMmap)
    → IsLaidOut lo rs
    → All (Apart x) rs
    → containing (placed x rs) a ≡ (if holds x a then some x else containing rs a)
containing-placed lo a x [] h p = refl
containing-placed lo a x (r ∷ rs) h p =
    ground (arith, p.0, containing-placed (end_of r) a x rs h.2 p.1)

insert_region-placed :
    (m : GuestMemoryMmap) (x : GuestRegionMmap)
    → IsWellFormed m
    → insert_region m x ≡ from_arc_regions m.pid (placed x m.regions)
unfolding insert_region
insert_region-placed m x h = rw (sort_by_start-placed 0 x m.regions h)

IsLaidOut-IsRegion : (lo : ℕ) (rs : List GuestRegionMmap) → IsLaidOut lo rs → All IsRegion rs
IsLaidOut-IsRegion lo [] h = tt
IsLaidOut-IsRegion lo (r ∷ rs) h = (h.1, IsLaidOut-IsRegion (end_of r) rs h.2)

placed-ne-nil : (x : GuestRegionMmap) (rs : List GuestRegionMmap) → placed x rs ≢ []
placed-ne-nil x [] e = cc
placed-ne-nil x (r ∷ rs) e = ground arith

placed-IsRegion :
    (lo : ℕ) (x : GuestRegionMmap) (rs : List GuestRegionMmap)
    → IsLaidOut lo rs
    → IsRegion x
    → All IsRegion (placed x rs)
placed-IsRegion lo x [] h i = (i, tt)
placed-IsRegion lo x (r ∷ rs) h i = elim (Bool-cases (ltb x.guest_base r.guest_base)) [
  | inl before ↦ rw before (i, (h.1, IsLaidOut-IsRegion (end_of r) rs h.2))
  | inr after ↦ rw after (h.1, placed-IsRegion (end_of r) x rs h.2 i)
]

pub insert_region-made :
    (m : GuestMemoryMmap) (x : GuestRegionMmap)
    → IsWellFormed m
    → IsRegion x
    → All (Apart x) m.regions
    → insert_region m x ≡ ok (record { pid = m.pid; regions = placed x m.regions })
insert_region-made m x h i apart =
    insert_region-placed m x h
    ∙ (from_arc_regions_iff m.pid (placed x m.regions) _ (placed-IsRegion 0 x m.regions h i)).1
        (placed-ne-nil x m.regions, placed-IsLaidOut 0 x m.regions h (omega arith) i apart, refl)

-- A region that came from `GuestRegionMmap::new`, is not empty and is apart from the regions of a
-- well-formed memory is inserted: the result is well-formed, and its lookup finds the new region at
-- the new region's addresses and what it found before elsewhere.
pub insert_region_lem :
    (m : GuestMemoryMmap) (x : GuestRegionMmap)
    → IsWellFormed m
    → IsRegion x
    → All (Apart x) m.regions
    → (m' : GuestMemoryMmap) × (insert_region m x ≡ ok m')
      × IsWellFormed m'
      × ((a : ℕ) → find_region m' a ≡ (if holds x a then some x else find_region m a))
insert_region_lem m x h i apart =
    let m' : GuestMemoryMmap = record { pid = m.pid; regions = placed x m.regions } in
    let laid = placed-IsLaidOut 0 x m.regions h (omega arith) i apart in
    (
      m',
      insert_region-made m x h i apart,
      laid,
      λ a.
          rw (find_region-containing m' a laid, find_region-containing m a h)
            (containing-placed 0 a x m.regions h apart),
    )

-- A region that meets one of a well-formed memory is refused as an overlap.
pub insert_region_overlap :
    (m : GuestMemoryMmap) (x : GuestRegionMmap)
    → IsWellFormed m
    → IsRegion x
    → ¬ All (Apart x) m.regions
    → insert_region m x ≡ err memory_region_overlap
insert_region_overlap m x h i meets =
    insert_region-placed m x h
    ∙ from_arc_regions_overlap m.pid (placed x m.regions) (placed-IsRegion 0 x m.regions h i)
        (placed-IsSorted 0 0 x m.regions (omega arith) h (omega arith)) (placed-ne-nil x m.regions)
        (λ l. meets (placed-Apart 0 x m.regions l))
