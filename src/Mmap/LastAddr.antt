-- ===== src/Mmap/LastAddr.antt =====
-- `last_addr` of a `GuestMemoryMmap`.
use mathlib.Core.List.{foldl}
use vm_memory.Base.{
  ℕ, ◌+◌, ◌-◌, ◌≤◌, ◌<◌, max, ◌≡◌, ◌∙◌, false, none, some, List, [], ◌∷◌, map, arith,
}
use vm_memory.Mmap.{GuestRegionMmap, GuestMemoryMmap, region_mmap, find_region, memory_mmap}
use vm_memory.Mmap.Layout.{IsLaidOut, IsWellFormed, holds, containing}
use vm_memory.Mmap.Find.{last_addr_lem, find_region-containing}
use vm_memory.Region
use vm_memory.Memory

-- The greatest address of regions that are laid out from `lo` on.
abbrev IsGreatest : ℕ → List GuestRegionMmap → ℕ → Type 0
IsGreatest lo rs t =
    ((r : GuestRegionMmap) × (containing rs t ≡ some r))
    × (lo ≤ t)
    × ((a : ℕ) → t < a → containing rs a ≡ none)

abbrev lasts : List GuestRegionMmap → List ℕ
lasts rs = map (Region.last_addr region_mmap) rs

foldl-IsGreatest :
    (lo acc : ℕ) (r : GuestRegionMmap) (rs : List GuestRegionMmap)
    → IsLaidOut lo (r ∷ rs)
    → acc ≤ lo
    → IsGreatest lo (r ∷ rs) (foldl max acc (lasts (r ∷ rs)))
foldl-IsGreatest lo acc r [] h p =
    let last = last_addr_lem r h.1 in
    let top : max acc (Region.last_addr region_mmap r) ≡ r.guest_base + r.mapping.size - 1 =
      omega (arith, last, h.0, h.1.inhabited) in
    rw top (
      (r, ground (arith, h.1.inhabited)),
      omega (arith, h.0, h.1.inhabited),
      λ a q. ground (arith, h.1.inhabited),
    )
foldl-IsGreatest lo acc r (q ∷ rs) h p =
    let last = last_addr_lem r h.1 in
    let small : max acc (Region.last_addr region_mmap r) ≤ r.guest_base + r.mapping.size =
      omega (arith, last, h.0, h.1.inhabited) in
    let ((x, found_x), above, none_above) =
      foldl-IsGreatest (r.guest_base + r.mapping.size) (max acc (Region.last_addr region_mmap r)) q
        rs h.2 small in
    let t = foldl max (max acc (Region.last_addr region_mmap r)) (lasts (q ∷ rs)) in
    let out : holds r t ≡ false = ground (arith, above) in
    (
      (x, rw out found_x),
      omega (arith, h.0, above),
      λ a past.
          let out_a : holds r a ≡ false = ground (arith, above, past) in
          rw out_a (none_above a past),
    )

-- In a well-formed memory with a region, `last_addr` is the greatest address of a region.
last_addr-greatest :
    (pid : ℕ) (r : GuestRegionMmap) (rs : List GuestRegionMmap)
    → let m : GuestMemoryMmap = record { pid = pid; regions = r ∷ rs } in
      let last = Memory.last_addr region_mmap memory_mmap m in
      IsWellFormed m
      → ((x : GuestRegionMmap) × (find_region m last ≡ some x))
        × ((a : ℕ) → last < a → find_region m a ≡ none)
unfolding Memory.last_addr
last_addr-greatest pid r rs well =
    let m : GuestMemoryMmap = record { pid = pid; regions = r ∷ rs } in
    let ((x, e), above, none_above) = foldl-IsGreatest 0 0 r rs well (omega arith) in
    (
      (x, find_region-containing m _ well ∙ e),
      λ a p. find_region-containing m a well ∙ none_above a p,
    )
