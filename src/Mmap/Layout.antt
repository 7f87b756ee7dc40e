-- ===== src/Mmap/Layout.antt =====
-- The invariant of `GuestMemoryMmap`: regions in order of address, apart, none empty, none past the
-- end of the address space; and the lookup by a plain search, as the specification of `find_region`.
use vm_memory.Base.{
  ℕ, ◌+◌, ◌≤◌, ◌<◌, ◌≡◌, refl, inl, inr, Bool, true, false, ◌&&◌, Option, none, some, List, [], ◌∷◌,
  arith, ltb, leb, if◌then◌else◌, Bool-cases, word,
}
use vm_memory.Mmap.{GuestRegionMmap, GuestMemoryMmap}

-- `GuestRegionMmap::new` accepts only such a region, apart from the empty ones.
pub record IsRegion (r : GuestRegionMmap) : Type 0 where
  pub inhabited : 0 < r.mapping.size
  pub bounded : r.guest_base + r.mapping.size < word

-- The regions lie in this order from the address `lo` on.
abbrev pub IsLaidOut : ℕ → List GuestRegionMmap → Type 0
IsLaidOut lo [] = Unit
IsLaidOut lo (r ∷ rs) =
    (lo ≤ r.guest_base) × IsRegion r × IsLaidOut (r.guest_base + r.mapping.size) rs

abbrev pub IsWellFormed : GuestMemoryMmap → Type 0
IsWellFormed m = IsLaidOut 0 m.regions

abbrev pub holds : GuestRegionMmap → ℕ → Bool
holds r a = leb r.guest_base a && ltb a (r.guest_base + r.mapping.size)

-- The region that holds an address, if there is one.
abbrev pub containing : List GuestRegionMmap → ℕ → Option GuestRegionMmap
containing [] a = none
containing (r ∷ rs) a = if holds r a then some r else containing rs a

pub IsLaidOut-le :
    (lo lo' : ℕ) (rs : List GuestRegionMmap) → lo' ≤ lo → IsLaidOut lo rs → IsLaidOut lo' rs
IsLaidOut-le lo lo' [] p h = tt
IsLaidOut-le lo lo' (r ∷ rs) p h = (omega arith, h.1, h.2)

pub containing-below :
    (lo a : ℕ) (rs : List GuestRegionMmap) → IsLaidOut lo rs → a < lo → containing rs a ≡ none
containing-below lo a [] h p = refl
containing-below lo a (r ∷ rs) h p =
    ground (arith, containing-below (r.guest_base + r.mapping.size) a rs h.2)

-- What is found holds the address, and is found at each of its addresses.
pub containing-holds :
    (a : ℕ) (rs : List GuestRegionMmap) (r : GuestRegionMmap)
    → containing rs a ≡ some r
    → holds r a ≡ true
containing-holds a [] r e = cc
containing-holds a (q ∷ rs) r e = ground (arith, containing-holds a rs r)

pub containing-IsRegion :
    (lo a : ℕ) (rs : List GuestRegionMmap) (r : GuestRegionMmap)
    → IsLaidOut lo rs
    → containing rs a ≡ some r
    → (lo ≤ r.guest_base) × IsRegion r
containing-IsRegion lo a [] r h e = cc
containing-IsRegion lo a (q ∷ rs) r h e = elim (Bool-cases (holds q a)) [
  | inl here ↦ let same : q ≡ r = ground arith in rw (← same) (h.0, h.1)
  | inr further ↦
      let rest : containing rs a ≡ some r = ground arith in
      let ih = containing-IsRegion (q.guest_base + q.mapping.size) a rs r h.2 rest in
      (omega (arith, ih.0, h.0), ih.1)
]

pub containing_whole :
    (lo a b : ℕ) (rs : List GuestRegionMmap) (r : GuestRegionMmap)
    → IsLaidOut lo rs
    → containing rs a ≡ some r
    → holds r b ≡ true
    → containing rs b ≡ some r
containing_whole lo a b [] r h e q = cc
containing_whole lo a b (x ∷ rs) r h e q = elim (Bool-cases (holds x a)) [
  | inl here ↦ let same : x ≡ r = ground arith in rw same (rw q)
  | inr further ↦
      let rest : containing rs a ≡ some r = ground arith in
      let ih = containing_whole (x.guest_base + x.mapping.size) a b rs r h.2 rest q in
      let apart = (containing-IsRegion (x.guest_base + x.mapping.size) a rs r h.2 rest).0 in
      let out : holds x b ≡ false = ground arith in rw out ih
]
