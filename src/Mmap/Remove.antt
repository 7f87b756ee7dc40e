-- ===== src/Mmap/Remove.antt =====
-- `remove_region`: takes out the region with the given base and size, or changes nothing.
use vm_memory.Base.{
  ℕ, zero, suc, ◌≤◌, ◌<◌, ◌≡◌, refl, ap, ◌≢◌, inl, inr, none, some, List, [], ◌∷◌, arith, ltb, ◌==◌,
  if◌then◌else◌, ==_iff, Bool-cases, get_elem?, All, All-imp, Outcome, panic, stuck, err, ok,
}
use vm_memory.Mmap.{
  Error, invalid_guest_region, GuestRegionMmap, GuestMemoryMmap, insert_region, Search, found,
  insert_at, shifted, search_start, remove_at, remove_searched, remove_region, find_region,
}
use vm_memory.Mmap.Layout.{
  IsRegion, IsLaidOut, IsWellFormed, holds, containing, IsLaidOut-le, containing-below,
}
use vm_memory.Mmap.Find.{find_region-containing}
use vm_memory.Mmap.Insert.{end_of, Apart, placed, placed-IsLaidOut, le-placed, insert_region-made}

-- What the search by start address tells of a laid-out collection.
abbrev Located : List GuestRegionMmap → ℕ → Search → Type 0
Located rs base (insert_at i) = All (λ r. r.guest_base ≢ base) rs
Located rs base (found i) =
    (r : GuestRegionMmap) × (get_elem? rs i ≡ some r) × (r.guest_base ≡ base)

All-above :
    (lo base : ℕ) (rs : List GuestRegionMmap)
    → IsLaidOut lo rs
    → base < lo
    → All (λ r. r.guest_base ≢ base) rs
All-above lo base [] h p = tt
All-above lo base (r ∷ rs) h p =
    (omega (arith, h.0), All-above (end_of r) base rs h.2 (omega (arith, h.0)))

Located-shifted :
    (r : GuestRegionMmap) (rs : List GuestRegionMmap) (base : ℕ) (f : Search)
    → r.guest_base ≢ base
    → Located rs base f
    → Located (r ∷ rs) base (shifted f)
Located-shifted r rs base (found i) n l = l
Located-shifted r rs base (insert_at i) n l = (n, l)

search_start-Located :
    (lo base : ℕ) (rs : List GuestRegionMmap)
    → IsLaidOut lo rs
    → Located rs base (search_start rs base)
unfolding search_start
search_start-Located lo base [] h = tt
search_start-Located lo base (r ∷ rs) h = elim (Bool-cases (r.guest_base == base)) [
  | inl same ↦ rw same (r, refl, ground arith)
  | inr other ↦ elim (Bool-cases (ltb r.guest_base base)) [
    | inl below ↦
        rw (other, below)
          (Located-shifted r rs base (search_start rs base) (ground arith)
            (search_start-Located (end_of r) base rs h.2))
    | inr above ↦
        rw (other, above)
          (ground arith, All-above (end_of r) base rs h.2 (ground (arith, h.1.inhabited)))
  ]
]

pub remove_at-IsLaidOut :
    (lo i : ℕ) (rs : List GuestRegionMmap) → IsLaidOut lo rs → IsLaidOut lo (remove_at rs i)
unfolding remove_at
remove_at-IsLaidOut lo i [] h = tt
remove_at-IsLaidOut lo zero (r ∷ rs) h = IsLaidOut-le (end_of r) lo rs (omega (arith, h.0)) h.2
remove_at-IsLaidOut lo (suc i) (r ∷ rs) h = (h.0, h.1, remove_at-IsLaidOut (end_of r) i rs h.2)

-- A region of a laid-out collection lies behind the start.
le-get_elem? :
    (lo i : ℕ) (rs : List GuestRegionMmap) (x : GuestRegionMmap)
    → IsLaidOut lo rs
    → get_elem? rs i ≡ some x
    → lo ≤ x.guest_base
le-get_elem? lo i [] x h e = cc
le-get_elem? lo zero (r ∷ rs) x h e = let same : r ≡ x = ground arith in rw (← same) h.0
le-get_elem? lo (suc i) (r ∷ rs) x h e = omega (arith, h.0, le-get_elem? (end_of r) i rs x h.2 e)

containing-remove_at :
    (lo i a : ℕ) (rs : List GuestRegionMmap) (x : GuestRegionMmap)
    → IsLaidOut lo rs
    → get_elem? rs i ≡ some x
    → containing (remove_at rs i) a ≡ (if holds x a then none else containing rs a)
unfolding remove_at
containing-remove_at lo i a [] x h e = cc
containing-remove_at lo zero a (r ∷ rs) x h e =
    let same : r ≡ x = ground arith in
    rw (← same) (ground (arith, containing-below (end_of r) a rs h.2))
containing-remove_at lo (suc i) a (r ∷ rs) x h e =
    ground
      (arith, le-get_elem? (end_of r) i rs x h.2 e, containing-remove_at (end_of r) i a rs x h.2 e)

abbrev pub Matches : ℕ → ℕ → GuestRegionMmap → Type 0
Matches base size r = (r.guest_base ≡ base) × (r.mapping.size ≡ size)

-- A base belongs to one region only.
only_base :
    (lo i base size : ℕ) (rs : List GuestRegionMmap) (x : GuestRegionMmap)
    → IsLaidOut lo rs
    → get_elem? rs i ≡ some x
    → x.guest_base ≡ base
    → x.mapping.size ≢ size
    → All (λ r. ¬ (Matches base size r)) rs
only_base lo i base size [] x h e b n = tt
only_base lo zero base size (r ∷ rs) x h e b n =
    let same : r ≡ x = ground arith in
    (
      λ both. n (rw (← same) both.1),
      All-imp (λ q. q.guest_base ≢ base) (λ q. ¬ (Matches base size q)) rs (λ q k both. k both.0)
          (All-above (end_of r) base rs h.2 (ground (arith, h.1.inhabited))),
    )
only_base lo (suc i) base size (r ∷ rs) x h e b n =
    let behind = le-get_elem? (end_of r) i rs x h.2 e in
    (λ both. absurd (omega (arith, h.1.inhabited)), only_base (end_of r) i base size rs x h.2 e b n)

-- The region that was asked for, taken out; or a refusal, where there is none.
abbrev pub Removes :
    GuestMemoryMmap → ℕ → ℕ → Outcome Error (GuestMemoryMmap × GuestRegionMmap) → Type 0
Removes m base size (ok (m', r)) =
    (r.guest_base ≡ base)
    × (r.mapping.size ≡ size)
    × IsWellFormed m'
    × ((a : ℕ) → find_region m' a ≡ (if holds r a then none else find_region m a))
Removes m base size (err e) =
    (e ≡ invalid_guest_region) × All (λ r. ¬ (Matches base size r)) m.regions
Removes m base size panic = ⊥
Removes m base size stuck = ⊥

-- `remove_region` of a well-formed memory returns. It gives the region with this base and this size
-- and a well-formed memory without it, whose lookup finds nothing at that region's addresses and is
-- unchanged elsewhere; or it refuses, and no region has both this base and this size.
pub remove_region-Removes :
    (m : GuestMemoryMmap) (base size : ℕ)
    → IsWellFormed m
    → Removes m base size (remove_region m base size)
unfolding remove_region
remove_region-Removes m base size h =
    by_search (search_start m.regions base) (search_start-Located 0 base m.regions h)
  where
    by_search :
        (f : Search) → Located m.regions base f → Removes m base size (remove_searched m size f)
    by_search (insert_at i) l = (
      refl,
      All-imp (λ r. r.guest_base ≢ base) (λ r. ¬ (Matches base size r)) m.regions
          (λ r n both. n both.0) l,
    )
    by_search (found i) (r, e, b) = elim (Bool-cases (r.mapping.size == size)) [
      | inl same ↦
          rw (e, same)
            (
              b,
              ground arith,
              remove_at-IsLaidOut 0 i m.regions h,
              λ a.
                  let m' : GuestMemoryMmap = record {
                    pid = m.pid;
                    regions = remove_at m.regions i;
                  } in
                  rw
                    (
                      find_region-containing m' a (remove_at-IsLaidOut 0 i m.regions h),
                      find_region-containing m a h,
                    )
                    (containing-remove_at 0 i a m.regions r h e),
            )
      | inr other ↦ rw (e, other) (refl, only_base 0 i base size m.regions r h e b (ground arith))
    ]

index_of_placed :
    (lo : ℕ) (x : GuestRegionMmap) (rs : List GuestRegionMmap)
    → IsLaidOut lo (placed x rs)
    → (i : ℕ) × (search_start (placed x rs) x.guest_base ≡ found i)
      × (get_elem? (placed x rs) i ≡ some x)
      × (remove_at (placed x rs) i ≡ rs)
unfolding search_start remove_at
index_of_placed lo x [] h = (0, ground arith, refl, refl)
index_of_placed lo x (r ∷ rs) h = elim (Bool-cases (ltb x.guest_base r.guest_base)) [
  | inl before ↦ rw before (0, ground arith, refl, refl)
  | inr after ↦
      let l = rw after at h in
      let (i, s, g, k) = index_of_placed (end_of r) x rs l.2 in
      let behind = le-placed (end_of r) x rs l.2 in
      rw after (suc i, ground (arith, l.1.inhabited), g, ap (◌∷◌ r) k)
]

-- Removing a region right after its insertion gives back the memory and the region.
pub remove_region-insert_region :
    (m : GuestMemoryMmap) (x : GuestRegionMmap)
    → IsWellFormed m
    → IsRegion x
    → All (Apart x) m.regions
    → (m' : GuestMemoryMmap) × (insert_region m x ≡ ok m')
      × (remove_region m' x.guest_base x.mapping.size ≡ ok (m, x))
unfolding remove_region
remove_region-insert_region m x h i apart =
    let laid = placed-IsLaidOut 0 x m.regions h (omega arith) i apart in
    let (j, s, g, k) = index_of_placed 0 x m.regions laid in
    (
      record { pid = m.pid; regions = placed x m.regions },
      insert_region-made m x h i apart,
      rw (s, g, k, (==_iff x.mapping.size x.mapping.size).1 refl) refl,
    )
