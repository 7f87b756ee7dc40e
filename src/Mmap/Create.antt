-- ===== src/Mmap/Create.antt =====
-- `from_arc_regions` accepts exactly the well-formed collections.
use vm_memory.Base.{
  ℕ, ◌+◌, ◌≤◌, ◌≡◌, refl, sym, ap, ◌≢◌, ◌↔◌, ◌⊎◌, inl, inr, List, [], ◌∷◌, arith, All, err, ok,
  >>=-eq-ok, ok_inj,
}
use vm_memory.Mmap.{
  memory_region_overlap, GuestRegionMmap, GuestMemoryMmap, check_windows, from_arc_regions,
}
use vm_memory.Mmap.Layout.{IsRegion, IsLaidOut}
use vm_memory.Mmap.Find.{last_addr_lem}

check_windows_iff :
    (r : GuestRegionMmap) (rs : List GuestRegionMmap)
    → All IsRegion (r ∷ rs)
    → (check_windows (r ∷ rs) ≡ ok tt) ↔ IsLaidOut r.guest_base (r ∷ rs)
unfolding check_windows
check_windows_iff r [] h = (λ e. (omega arith, h.0, tt), λ l. refl)
check_windows_iff r (q ∷ rs) h =
    let ih = check_windows_iff q rs h.1 in
    let last = last_addr_lem r h.0 in
    (
      λ e.
          let rest : check_windows (q ∷ rs) ≡ ok tt = ground arith in
          let apart : r.guest_base + r.mapping.size ≤ q.guest_base =
            ground (arith, h.0.inhabited) in
          let l = ih.0 rest in (omega arith, h.0, (apart, l.1, l.2)),
      λ l. let rest = ih.1 (omega arith, l.2.1, l.2.2) in ground (arith, rest, last, h.0.inhabited),
    )

-- `from_arc_regions` of regions that each came from `GuestRegionMmap::new` and are not empty
-- returns the memory of just these regions if there is one at least and they are in order and
-- apart; and it returns nothing else, for no other regions.
pub from_arc_regions_iff :
    (pid : ℕ) (rs : List GuestRegionMmap) (m : GuestMemoryMmap)
    → All IsRegion rs
    → (from_arc_regions pid rs ≡ ok m)
      ↔ ((rs ≢ []) × IsLaidOut 0 rs × (m ≡ record { pid = pid; regions = rs }))
unfolding from_arc_regions
from_arc_regions_iff pid [] m h = (λ e. cc, λ c. absurd (c.0 refl))
from_arc_regions_iff pid (r ∷ rs) m h = (
  λ e.
      let (u, checked, made) = >>=-eq-ok (check_windows (r ∷ rs)) _ e in
      let laid = (check_windows_iff r rs h).0 checked in
      (λ n. cc, (omega arith, laid.1, laid.2), sym (ok_inj made)),
  λ c. rw ((check_windows_iff r rs h).1 (omega arith, c.1.1, c.1.2)) (ap ok (sym c.2)),
)

-- Of regions in order of address the only complaint is an overlap.
abbrev pub IsSorted : ℕ → List GuestRegionMmap → Type 0
IsSorted lo [] = Unit
IsSorted lo (r ∷ rs) = (lo ≤ r.guest_base) × IsSorted r.guest_base rs

pub check_windows-IsSorted :
    (lo : ℕ) (rs : List GuestRegionMmap)
    → IsSorted lo rs
    → (check_windows rs ≡ ok tt) ⊎ (check_windows rs ≡ err memory_region_overlap)
unfolding check_windows
check_windows-IsSorted lo [] h = inl refl
check_windows-IsSorted lo (r ∷ []) h = inl refl
check_windows-IsSorted lo (r ∷ q ∷ rs) h =
    ground (arith, check_windows-IsSorted r.guest_base (q ∷ rs) h.1)

pub from_arc_regions_overlap :
    (pid : ℕ) (rs : List GuestRegionMmap)
    → All IsRegion rs
    → IsSorted 0 rs
    → rs ≢ []
    → ¬ IsLaidOut 0 rs
    → from_arc_regions pid rs ≡ err memory_region_overlap
unfolding from_arc_regions
from_arc_regions_overlap pid [] h s n l = absurd (n refl)
from_arc_regions_overlap pid (r ∷ rs) h s n l = elim (check_windows-IsSorted 0 (r ∷ rs) s) [
  | inr overlap ↦ rw overlap
  | inl checked ↦
      let laid = (check_windows_iff r rs h).0 checked in absurd (l (omega arith, laid.1, laid.2))
]
