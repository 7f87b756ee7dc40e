-- ===== src/Memory.antt =====
-- src/guest_memory.rs: the trait `GuestMemory` with its provided methods, over any implementation
-- of the required ones. `try_access` is the loop that cuts an access at the regions' borders.
pub mod Access
pub mod Range
pub mod Translate
pub mod Once
pub mod Host
pub mod Regions
use mathlib.Core.List.{foldl}
use vm_memory.Base.{
  ℕ, zero, suc, min, max, Bool, false, Option, none, some, List, map, ◌==◌, if◌then◌else◌,
  wrapping_add, wrapping_sub, Outcome, panic, stuck, err, ok, ◌>>=◌, unwrap, and_then, is_some,
}
use vm_memory.Address.{checked_add, overflowing_add}
use vm_memory.Region.{Error, invalid_guest_address, GuestMemoryRegion}
use vm_memory.Region

-- The required methods of `GuestMemory`.
pub record GuestMemory (M R : Type 0) : Type 0 where
  pub num_regions : M → ℕ
  pub find_region : M → ℕ → Option R
  pub iter : M → List R

-- What one round of the loop in `try_access` leads to: an end, or a next address and total.
pub data Progress (S : Type 0) : Type 0 where
  stop : Outcome Error ℕ → S → Progress S
  go : ℕ → ℕ → S → Progress S

-- What stands after the loop.
abbrev pub finish : ℕ → ℕ → Outcome Error ℕ
finish addr total = if total == 0 then err (invalid_guest_address addr) else ok total

-- `cur = match cur.overflowing_add(len) { … }`
abbrev pub resume : {S : Type 0} → ℕ → ℕ → ℕ → S → Progress S
resume cur len total s =
    let (result, overflow) = overflowing_add cur len in
    if result == 0 then go 0 total s else if overflow then stop panic s else go result total s

-- The `match` on what the callback returned.
pub after_call : {S : Type 0} → ℕ → ℕ → ℕ → ℕ → Outcome Error ℕ × S → Progress S
after_call count addr cur total (ok len, s) =
    if len == 0
    then stop (ok total) s
    else let total' = wrapping_add total len in
      if total' == count then stop (finish addr total') s else resume cur len total' s
after_call count addr cur total (err e, s) = stop (err e) s
after_call count addr cur total (panic, s) = stop panic s
after_call count addr cur total (stuck, s) = stop stuck s

abbrev pub proceed :
    {S : Type 0} → (ℕ → ℕ → S → Outcome Error ℕ × S) → Progress S → Outcome Error ℕ × S
proceed again (stop r s) = (r, s)
proceed again (go cur total s) = again cur total s

module _ {M R S : Type 0} (g : GuestMemoryRegion R) (gm : GuestMemory M R) (m : M) (count addr : ℕ)
    (f : ℕ → ℕ → ℕ → R → S → Outcome Error ℕ × S) where
  -- The body of the loop for a region, and the address in it.
  pub visit : ℕ → ℕ → S → R → Option ℕ → Progress S
  unfolding after_call
  visit cur total s region none = stop panic s
  visit cur total s region (some start) =
      let cap = wrapping_sub (g.len region) start in
      let len = min cap (wrapping_sub count total) in
      after_call count addr cur total (f total len start region s)

  -- One test of `while let Some(region) = self.find_region(cur)`, with the body.
  pub access_step : ℕ → ℕ → S → Option R → Progress S
  unfolding visit
  access_step cur total s none = stop (finish addr total) s
  access_step cur total s (some region) =
      visit cur total s region (Region.to_region_addr g region cur)

  pub access_loop : ℕ → ℕ → ℕ → S → Outcome Error ℕ × S
  unfolding access_step
  access_loop zero cur total s = (stuck, s)
  access_loop (suc fuel) cur total s =
      proceed (access_loop fuel) (access_step cur total s (gm.find_region m cur))

  unfoldable pub try_access : S → Outcome Error ℕ × S
  unfolding access_loop
  try_access s = access_loop (suc count) addr 0 s

-- The `match` of `check_range`.
abbrev pub range_verdict : ℕ → Outcome Error ℕ → Outcome Error Bool
range_verdict len (ok count) = ok (count == len)
range_verdict len (err e) = ok false
range_verdict len panic = panic
range_verdict len stuck = stuck

abbrev pub offset_in :
    {R : Type 0} → GuestMemoryRegion R → ℕ → Option R → Outcome Error (Option (R × ℕ))
offset_in g addr none = ok none
offset_in g addr (some r) = unwrap (Region.to_region_addr g r addr) >>= λ a. ok (some (r, a))

module _ {M R : Type 0} (g : GuestMemoryRegion R) (gm : GuestMemory M R) (m : M) where
  unfoldable pub last_addr : ℕ
  last_addr = foldl max 0 (map (Region.last_addr g) (gm.iter m))

  -- The inner `Option` is the one of the method, the `unwrap` may panic.
  pub to_region_addr : ℕ → Outcome Error (Option (R × ℕ))
  to_region_addr addr = offset_in g addr (gm.find_region m addr)

  pub check_range : ℕ → ℕ → Outcome Error Bool
  unfolding try_access
  check_range base len =
      range_verdict len
        (try_access g gm m len base (λ total count start region s. (ok count, s)) tt).0

module _ {M R : Type 0} (gm : GuestMemory M R) (m : M) where
  abbrev pub address_in_range : ℕ → Bool
  address_in_range addr = is_some (gm.find_region m addr)

  abbrev pub check_address : ℕ → Option ℕ
  check_address addr = and_then (gm.find_region m addr) (λ r. some addr)

  abbrev pub checked_offset : ℕ → ℕ → Option ℕ
  checked_offset base offset = and_then (checked_add base offset) check_address
