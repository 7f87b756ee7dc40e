-- ===== src/Mmap/Ranges/Opened.antt =====
-- The memory that `from_ranges_with_files` opens has the regions asked for.
use vm_memory.Base.{
  ℕ, ◌+◌, ◌<◌, bit_or, ◌≡◌, refl, inl, inr, Option, none, some, List, [], ◌∷◌, ◌++◌, arith, ltb,
  ltb→lt, Bool-cases, All, word, Outcome, panic, stuck, err, ok,
}
use vm_memory.Mmap.{Error, GuestRegionMmap, GuestMemoryMmap, new_region, from_arc_regions}
use vm_memory.Mmap.Layout.{IsRegion, IsWellFormed}
use vm_memory.Mmap.Create.{from_arc_regions_iff}
use vm_memory.Mmap.Ranges.{
  GuestRange, at_base, map_memory, after_range, map_ranges, memory_or_drop, assembled,
  from_ranges_with_files,
}
use vm_memory.MmapUnix.{FileOffset, MmapRegion, Os}
use vm_memory.MmapUnix.Build.{Builds, from_file-Builds, new-Builds}
use mathlib.Core.Path.{subst}
use mathlib.Core.List.{append-nil, append_assoc}
use vm_memory.MmapUnix

-- One region for each range, with its base, size and file.
abbrev pub Covers : List GuestRange → List GuestRegionMmap → Type 0
Covers [] [] = Unit
Covers [] (r ∷ rs) = ⊥
Covers (x ∷ xs) [] = ⊥
Covers (x ∷ xs) (r ∷ rs) =
    (r.guest_base ≡ x.base)
    × (r.mapping.size ≡ x.size)
    × (r.mapping.file_offset ≡ x.file)
    × (x.base + x.size < word)
    × Covers xs rs

Covers-append :
    (xs : List GuestRange) (rs : List GuestRegionMmap) (x : GuestRange) (r : GuestRegionMmap)
    → Covers xs rs
    → Covers (x ∷ []) (r ∷ [])
    → Covers (xs ++ x ∷ []) (rs ++ r ∷ [])
Covers-append [] [] x r h one = one
Covers-append [] (q ∷ rs) x r h one = absurd h
Covers-append (y ∷ xs) [] x r h one = absurd h
Covers-append (y ∷ xs) (q ∷ rs) x r (a, b, c, d, h) one =
    (a, b, c, d, Covers-append xs rs x r h one)

abbrev pub AllInhabited : List GuestRange → Type 0
AllInhabited ranges = All (λ (x : GuestRange). 0 < x.size) ranges

regions_lem :
    (xs : List GuestRange) (rs : List GuestRegionMmap)
    → AllInhabited xs
    → Covers xs rs
    → All IsRegion rs
regions_lem [] [] p h = tt
regions_lem [] (r ∷ rs) p h = absurd h
regions_lem (x ∷ xs) [] p h = absurd h
regions_lem (x ∷ xs) (r ∷ rs) p (a, b, c, d, h) =
    (record { inhabited = omega (arith, p.0); bounded = omega arith }, regions_lem xs rs p.1 h)

module _ {State : Type 0} (os : Os State) (pid : ℕ) where
  -- A mapping of the size and the file asked for, if it succeeded.
  IsSized : Option FileOffset → ℕ → Outcome MmapUnix.Error MmapRegion × State → Type 0
  IsSized f size (ok r, s) = (r.size ≡ size) × (r.file_offset ≡ f)
  IsSized f size (err e, s) = Unit
  IsSized f size (panic, s) = Unit
  IsSized f size (stuck, s) = Unit

  Builds-IsSized :
      (f : Option FileOffset) (size prot flags : ℕ) (s : State)
      (o : Outcome MmapUnix.Error MmapRegion × State)
      → Builds os f size prot flags s o
      → IsSized f size o
  unfolding IsSized
  Builds-IsSized f size prot flags s (ok r, s') (_, _, a, b, _, _, _, _, _) = (a, b)
  Builds-IsSized f size prot flags s (err e, s') h = tt
  Builds-IsSized f size prot flags s (panic, s') h = tt
  Builds-IsSized f size prot flags s (stuck, s') h = tt

  map_memory-IsSized :
      (size : ℕ) (f : Option FileOffset) (s : State) → IsSized f size (map_memory os pid size f s)
  unfolding map_memory
  map_memory-IsSized size (some f) s =
      Builds-IsSized (some f) size (bit_or os.prot_read os.prot_write)
        (bit_or os.map_noreserve os.map_shared) s _ (from_file-Builds os f size s)
  map_memory-IsSized size none s =
      Builds-IsSized none size (bit_or os.prot_read os.prot_write)
        (bit_or (bit_or os.map_anonymous os.map_noreserve) os.map_private) s _
        (new-Builds os size s)

  -- The region of a range, if there is one.
  IsMade : GuestRange → Outcome Error GuestRegionMmap × State → Type 0
  IsMade x (ok r, s) = Covers (x ∷ []) (r ∷ [])
  IsMade x (err e, s) = Unit
  IsMade x (panic, s) = Unit
  IsMade x (stuck, s) = Unit

  at_base-IsMade :
      (x : GuestRange) (o : Outcome MmapUnix.Error MmapRegion × State)
      → IsSized x.file x.size o
      → IsMade x (at_base os pid x.base o)
  unfolding IsMade IsSized at_base new_region
  at_base-IsMade x (ok r, s) (a, b) = elim (Bool-cases (ltb (x.base + r.size) word)) [
    | inl e ↦ rw (e, IsMade) (refl, a, b, omega (arith, ltb→lt _ _ e), tt)
    | inr e ↦ rw (e, IsMade) tt
  ]
  at_base-IsMade x (err e, s) h = tt
  at_base-IsMade x (panic, s) h = tt
  at_base-IsMade x (stuck, s) h = tt

  AllMade : List GuestRange → Outcome Error (List GuestRegionMmap) × State → Type 0
  AllMade xs (ok rs, s) = Covers xs rs
  AllMade xs (err e, s) = Unit
  AllMade xs (panic, s) = Unit
  AllMade xs (stuck, s) = Unit

  step :
      (x : GuestRange) (xs made : List GuestRange) (rs : List GuestRegionMmap)
      → Covers made rs
      → ((r : GuestRegionMmap) (s : State)
          → Covers (made ++ x ∷ []) (rs ++ r ∷ [])
          → AllMade ((made ++ x ∷ []) ++ xs) (map_ranges os pid xs (rs ++ r ∷ []) s))
      → (o : Outcome Error GuestRegionMmap × State) → IsMade x o
      → AllMade (made ++ x ∷ xs) (after_range os pid (map_ranges os pid xs) rs o)
  unfolding AllMade IsMade
  step x xs made rs h further (ok r, s') one =
      subst (λ ys. AllMade ys (map_ranges os pid xs (rs ++ r ∷ []) s'))
        (append_assoc made (x ∷ []) xs) (further r s' (Covers-append made rs x r h one))
  step x xs made rs h further (err e, s') one = tt
  step x xs made rs h further (panic, s') one = tt
  step x xs made rs h further (stuck, s') one = tt

  map_ranges-AllMade :
      (xs made : List GuestRange) (rs : List GuestRegionMmap) (s : State)
      → Covers made rs
      → AllMade (made ++ xs) (map_ranges os pid xs rs s)
  unfolding AllMade IsMade map_ranges
  map_ranges-AllMade [] made rs s h = rw (append-nil made) h
  map_ranges-AllMade (x ∷ xs) made rs s h =
      step x xs made rs h
        (λ r s' next. map_ranges-AllMade xs (made ++ x ∷ []) (rs ++ r ∷ []) s' next)
        (at_base os pid x.base (map_memory os pid x.size x.file s))
        (at_base-IsMade x _ (map_memory-IsSized x.size x.file s))

  -- What a memory that has been opened is.
  abbrev pub IsOpened : List GuestRange → GuestMemoryMmap → Type 0
  IsOpened ranges m = (m.pid ≡ pid) × Covers ranges m.regions × IsWellFormed m

  opened_lem :
      (ranges : List GuestRange) (o : Outcome Error (List GuestRegionMmap) × State)
      (m : GuestMemoryMmap)
      → AllInhabited ranges
      → AllMade ranges o
      → (assembled os pid o).0 ≡ ok m
      → IsOpened ranges m
  unfolding AllMade
  opened_lem ranges (ok rs, s) m p h e =
      let (nonempty, laid, same) =
        (from_arc_regions_iff pid rs m (regions_lem ranges rs p h)).0
          (kept_ok rs (from_arc_regions pid rs) s e) in
      rw same (refl, h, laid)
    where
      kept_ok :
          (rs : List GuestRegionMmap) (o : Outcome Error GuestMemoryMmap) (s : State)
          → (memory_or_drop os pid rs o s).0 ≡ ok m
          → o ≡ ok m
      kept_ok rs (ok n) s e = e
      kept_ok rs (err x) s e = cc
      kept_ok rs panic s e = cc
      kept_ok rs stuck s e = cc
  opened_lem ranges (err x, s) m p h e = cc
  opened_lem ranges (panic, s) m p h e = cc
  opened_lem ranges (stuck, s) m p h e = cc

  -- A memory that `from_ranges_with_files` returns, where no range is empty, has the process given, one
  -- region for each range, in their order, with its base, size and file, and is well formed.
  pub from_ranges_with_files-IsOpened :
      (ranges : List GuestRange) (s : State) (m : GuestMemoryMmap)
      → AllInhabited ranges
      → (from_ranges_with_files os pid ranges s).0 ≡ ok m
      → IsOpened ranges m
  unfolding from_ranges_with_files
  from_ranges_with_files-IsOpened ranges s m p e =
      opened_lem ranges (map_ranges os pid ranges [] s) m p (map_ranges-AllMade ranges [] [] s tt) e
