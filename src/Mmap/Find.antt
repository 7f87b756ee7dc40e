-- ===== src/Mmap/Find.antt =====
-- `find_region` finds the region that holds an address.
use vm_memory.Base.{
  ℕ, zero, suc, ◌+◌, ◌-◌, ◌<◌, ◌≡◌, refl, inl, inr, false, some, List, [], ◌∷◌, arith, ltb, leb,
  ltb→lt, Bool-cases,
}
use vm_memory.Memory.Access.{IsGuestMemory}
use vm_memory.Mmap.{
  GuestRegionMmap, GuestMemoryMmap, region_mmap, Search, found, insert_at, shifted, search_start,
  picked, find_region, memory_mmap,
}
use vm_memory.Mmap.Layout.{
  IsRegion, IsLaidOut, IsWellFormed, containing, containing-below, containing-holds,
  containing-IsRegion, containing_whole,
}
use vm_memory.Region

search_start-below :
    (lo a : ℕ) (rs : List GuestRegionMmap)
    → IsLaidOut lo rs
    → a < lo
    → search_start rs a ≡ insert_at 0
unfolding search_start
search_start-below lo a [] h p = refl
search_start-below lo a (r ∷ rs) h p = ground arith

-- The last address is that of the last byte.
pub last_addr_lem :
    (r : GuestRegionMmap)
    → IsRegion r
    → Region.last_addr region_mmap r ≡ r.guest_base + r.mapping.size - 1
last_addr_lem r h = omega (arith, h.inhabited, h.bounded)

-- Past the end of a region the lookup goes on behind it.
picked-shifted :
    (r : GuestRegionMmap) (rs : List GuestRegionMmap) (a : ℕ) (f : Search)
    → leb a (Region.last_addr region_mmap r) ≡ false
    → picked (r ∷ rs) a (shifted f) ≡ picked rs a f
picked-shifted r rs a (found x) h = refl
picked-shifted r rs a (insert_at zero) h = rw h
picked-shifted r rs a (insert_at (suc x)) h = refl

picked-containing :
    (lo a : ℕ) (rs : List GuestRegionMmap)
    → IsLaidOut lo rs
    → picked rs a (search_start rs a) ≡ containing rs a
unfolding search_start
picked-containing lo a [] h = refl
picked-containing lo a (r ∷ rs) h =
    let end = r.guest_base + r.mapping.size in
    let last = last_addr_lem r h.1 in
    elim (Bool-cases (ltb a end)) [
      | inl before ↦
          rw (search_start-below end a rs h.2 (ltb→lt a end before))
            (ground (arith, last, containing-below end a rs h.2))
      | inr after ↦
          let past : leb a (Region.last_addr region_mmap r) ≡ false =
            ground (arith, h.1.inhabited) in
          ground (
            arith,
            h.1.inhabited,
            picked-shifted r rs a (search_start rs a) past,
            picked-containing end a rs h.2,
          )
    ]

-- In a well-formed memory the binary search finds what a search of all regions finds.
pub find_region-containing :
    (m : GuestMemoryMmap) (a : ℕ) → IsWellFormed m → find_region m a ≡ containing m.regions a
unfolding find_region
find_region-containing m a h = picked-containing 0 a m.regions h

-- `GuestMemoryMmap` meets what `try_access` relies on.
pub memory_mmap-IsGuestMemory :
    (m : GuestMemoryMmap) → IsWellFormed m → IsGuestMemory region_mmap memory_mmap m
memory_mmap-IsGuestMemory m h = record {
  found_in = λ a r e.
      let found_here : containing m.regions a ≡ some r = rw (← find_region-containing m a h) e in
      ground (arith, containing-holds a m.regions r found_here);
  found_whole = λ a b r e p q.
      let found_here : containing m.regions a ≡ some r = rw (← find_region-containing m a h) e in
      rw (find_region-containing m b h)
        (containing_whole 0 a b m.regions r h found_here (ground arith));
  bounded = λ a r e.
      let found_here : containing m.regions a ≡ some r = rw (← find_region-containing m a h) e in
      ((containing-IsRegion 0 a m.regions r h found_here).1).bounded;
}
