-- ===== src/Memory/Range.antt =====
-- `check_range` decides whether every address of a range lies in a region.
use vm_memory.Base.{
  ℕ, ◌+◌, ◌≤◌, ◌<◌, max, ◌≡◌, refl, ◌↔◌, inl, inr, Bool, true, false, none, some, arith, ltb,
  Bool-cases, word, Outcome, ok,
}
use vm_memory.Memory.{GuestMemory, finish, range_verdict, check_range, address_in_range}
use vm_memory.Region.{Error, GuestMemoryRegion}
use vm_memory.Memory.Access.{IsGuestMemory, IsServing, try_access_lem}

module _ {M R : Type 0} (gm : GuestMemory M R) (m : M) (base len : ℕ) where
  -- Every address of the range is in a region; of an empty range, its base.
  abbrev pub IsCovered : Type 0
  IsCovered = (i : ℕ) → i < max 1 len → address_in_range gm m (base + i) ≡ true

  abbrev CoveredTo : ℕ → Type 0
  CoveredTo total = (i : ℕ) → i < total → address_in_range gm m (base + i) ≡ true

  abbrev Decides : Outcome Error ℕ → Type 0
  Decides r = (b : Bool) × (range_verdict len r ≡ ok b) × ((b ≡ true) ↔ IsCovered)

module _ {M R : Type 0} (g : GuestMemoryRegion R) (gm : GuestMemory M R) (m : M)
    (laws : IsGuestMemory g gm m) (base len : ℕ) (u : len < word) where
  abbrev claim_all : ℕ → ℕ → ℕ → R → Unit {0} → Outcome Error ℕ × Unit {0}
  claim_all total count start region s = (ok count, s)

  found-address_in_range :
      (a b : ℕ) (r : R)
      → gm.find_region m a ≡ some r
      → g.start_addr r ≤ b
      → b < g.start_addr r + g.len r
      → address_in_range gm m b ≡ true
  found-address_in_range a b r e p q = rw (laws.found_whole a b r e p q)

  uncovered-Decides :
      (total : ℕ) (r : Outcome Error ℕ)
      → total < max 1 len
      → gm.find_region m (base + total) ≡ none
      → range_verdict len r ≡ ok false
      → Decides gm m base len r
  uncovered-Decides total r p e v = (false, v, (λ h. cc, λ h. cc (rw e at (h total p))))

  serving :
      IsServing g gm m laws len base u claim_all
        (λ total s. CoveredTo gm m base len total)
        (λ r s. Decides gm m base len r)
  serving = record {
    call = λ total start n r s p due e at fit. (
      omega arith,
      λ z.
          let inside = laws.found_in (base + total) r e in
          let none_asked : (total ≡ 0) × (len ≡ 0) = ground arith in
          (
            true,
            ground arith,
            (
              λ h i q.
                  found-address_in_range (base + total) (base + i) r e (omega arith) (omega arith),
              λ h. refl,
            ),
          ),
      λ pos i q. elim (Bool-cases (ltb i total)) [
        | inl old ↦ p i (ground arith)
        | inr new ↦
            let inside = laws.found_in (base + total) r e in
            found-address_in_range (base + total) (base + i) r e (ground arith) (ground arith)
      ],
    );
    hole = λ total s p due e.
        uncovered-Decides total (finish base total) (ground arith) e (ground arith);
    full = λ s p pos. (true, ground arith, (λ h i q. p i (omega arith), λ h. refl));
  }

  -- `check_range` returns, and says true exactly if the whole range is in regions.
  pub check_range_iff :
      (b : Bool) × (check_range g gm m base len ≡ ok b) × ((b ≡ true) ↔ IsCovered gm m base len)
  unfolding check_range
  check_range_iff =
      try_access_lem g gm m laws len base u claim_all (λ total s. CoveredTo gm m base len total)
        (λ r s. Decides gm m base len r) serving tt (λ i q. absurd (omega arith))
