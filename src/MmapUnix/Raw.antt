-- ===== src/MmapUnix/Raw.antt =====
-- `build_raw` for pages of any power of two, and the drop of what it gives.
use vm_memory.Base.{
  ℕ, ◌-◌, ◌%◌, ◌^◌, ◌≤◌, ◌<◌, bit_and, ◌≡◌, refl, ap, ◌∙◌, ◌≢◌, ◌⊎◌, inl, inr, false, none, arith,
  ◌==◌, Bool-cases, word, wrapping_sub, Outcome, panic, stuck, err, ok,
}
use vm_memory.CopySlice.Mask.{bit_and-mask}
use vm_memory.MmapUnix.{
  Error, invalid_pointer, invalid_size, MmapRegion, Os, build_raw, drop_region,
}
use native.Mathlib.Nat.{one-le-pow, one-le-pow}

module _ {State : Type 0} (os : Os State) (k : ℕ) (small : 2 ^ k < word)
    (paged : os.page_size ≡ 2 ^ k) (addr size prot flags : ℕ) where
  page_mask : (x : ℕ) → bit_and x (wrapping_sub os.page_size 1) ≡ x % 2 ^ k
  page_mask x =
      let some_power : 1 ≤ 2 ^ k = one-le-pow k 2 (omega arith) in
      let low : wrapping_sub os.page_size 1 ≡ 2 ^ k - 1 = omega (arith, paged, some_power) in
      ap (bit_and x) low ∙ bit_and-mask k x

  -- What `build_raw` gives, on every branch.
  abbrev pub IsRaw : Outcome Error MmapRegion → Type 0
  IsRaw (ok r) =
      (addr % 2 ^ k ≡ 0)
      × (size % 2 ^ k ≡ 0)
      × (r.addr ≡ addr)
      × (r.size ≡ size)
      × (r.prot ≡ prot)
      × (r.flags ≡ flags)
      × (r.file_offset ≡ none)
      × (r.hugetlbfs ≡ none)
      × (r.owned ≡ false)
      × ((s : State) → drop_region os r s ≡ s)
  IsRaw (err e) =
      ((e ≡ invalid_pointer) × (addr % 2 ^ k ≢ 0))
      ⊎ ((e ≡ invalid_size) × (addr % 2 ^ k ≡ 0) × (size % 2 ^ k ≢ 0))
  IsRaw panic = ⊥
  IsRaw stuck = ⊥

  -- Where pages have 2 ^ `k` bytes, fewer than 2 ^ 64, `build_raw` takes exactly the areas of whole
  -- pages, with the address, size, protection and flags given, without a file and not owned, and
  -- refuses the others with the reason; the drop of such a region calls no `munmap`.
  pub build_raw-IsRaw : IsRaw (build_raw os addr size prot flags)
  unfolding build_raw drop_region
  build_raw-IsRaw = elim (Bool-cases (addr % 2 ^ k == 0)) [
    | inl at_page ↦ elim (Bool-cases (size % 2 ^ k == 0)) [
      | inl pages ↦
          rw (page_mask addr, page_mask size, at_page, pages)
            (ground arith, ground arith, refl, refl, refl, refl, refl, refl, refl, λ s. refl)
      | inr part ↦
          rw (page_mask addr, page_mask size, at_page, part)
            (inr (refl, ground arith, ground arith))
    ]
    | inr inside ↦ rw (page_mask addr, inside) (inl (refl, ground arith))
  ]
