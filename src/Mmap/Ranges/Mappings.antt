-- ===== src/Mmap/Ranges/Mappings.antt =====
-- The mappings of this process: what `build`, the drop of a region and that of several do to them.
use vm_memory.Base.{
  ℕ, ◌+◌, ◌-◌, bit_and, bit_or, ◌≡◌, refl, sym, ap, ◌∙◌, inl, inr, true, ◌&&◌, Option, none, some,
  List, [], ◌∷◌, ◌++◌, arith, ◌==◌, if◌then◌else◌, Bool-cases, All, Outcome, panic, stuck, err, ok,
}
use vm_memory.Mmap.{GuestRegionMmap}
use vm_memory.RemoteMem.{Sys, done, failed}
use vm_memory.Mmap.Ranges.{drop_all, map_memory}
use vm_memory.MmapUnix.{
  FileOffset, MmapRegion, Os, backing, map_backed, build, from_file, drop_region,
}
use vm_memory.MmapUnix.Build.{Checks, backing-Checks}
use vm_memory.MmapUnix

-- How many mappings of `n` bytes at `a` there are: the one given, and those of some regions.
abbrev pub one : ℕ → ℕ → ℕ → ℕ → ℕ
one addr size a n = if addr == a && size == n then 1 else 0

abbrev pub held : List GuestRegionMmap → ℕ → ℕ → ℕ
held [] a n = 0
held (r ∷ rs) a n = one r.mapping.addr r.mapping.size a n + held rs a n

pub held-append :
    (xs ys : List GuestRegionMmap) (a n : ℕ) → held (xs ++ ys) a n ≡ held xs a n + held ys a n
held-append [] ys a n = omega arith
held-append (x ∷ xs) ys a n = let ih = held-append xs ys a n in omega (arith, ih)

-- The mappings of the process: a call of `mmap` that succeeds adds one, one that fails none, and
-- `munmap` of a mapping takes it out.
pub record IsOs {State : Type 0} (os : Os State) (live : State → ℕ → ℕ → ℕ) : Type 0 where
  pub maps :
      (size prot flags : ℕ) (fd : Option ℕ) (offset addr : ℕ) (s : State)
      → (os.mmap size prot flags fd offset s).0 ≡ done addr
      → (a n : ℕ)
      → live (os.mmap size prot flags fd offset s).1 a n ≡ live s a n + one addr size a n
  pub fails :
      (size prot flags : ℕ) (fd : Option ℕ) (offset e : ℕ) (s : State)
      → (os.mmap size prot flags fd offset s).0 ≡ failed e
      → (a n : ℕ) → live (os.mmap size prot flags fd offset s).1 a n ≡ live s a n
  pub unmaps :
      (addr size : ℕ) (s : State) (a n : ℕ)
      → live (os.munmap addr size s) a n ≡ live s a n - one addr size a n

unfoldable pub AllOwned : List GuestRegionMmap → Type 0
AllOwned rs = All (λ (r : GuestRegionMmap). r.mapping.owned ≡ true) rs

pub AllOwned-snoc :
    (rs : List GuestRegionMmap) (r : GuestRegionMmap)
    → AllOwned rs
    → r.mapping.owned ≡ true
    → AllOwned (rs ++ r ∷ [])
unfolding AllOwned
AllOwned-snoc [] r h o = (o, tt)
AllOwned-snoc (x ∷ rs) r h o = (h.0, AllOwned-snoc rs r h.1 o)

module _ {State : Type 0} (os : Os State) (live : State → ℕ → ℕ → ℕ) (laws : IsOs os live)
    (pid : ℕ) where
  pub drop_live :
      (r : MmapRegion) (s : State) (a n : ℕ)
      → r.owned ≡ true
      → live (drop_region os r s) a n ≡ live s a n - one r.addr r.size a n
  unfolding drop_region
  drop_live r s a n o = rw o (laws.unmaps r.addr r.size s a n)

  pub drop_all_live :
      (rs : List GuestRegionMmap) (s : State) (a n : ℕ)
      → AllOwned rs
      → live (drop_all os pid rs s) a n ≡ live s a n - held rs a n
  unfolding AllOwned
  drop_all_live [] s a n h = omega arith
  drop_all_live (r ∷ rs) s a n h =
      let first = drop_live r.mapping s a n h.0 in
      let rest = drop_all_live rs (drop_region os r.mapping s) a n h.1 in omega (arith, first, rest)

  -- A new mapping more, or the same mappings as in `s`.
  unfoldable pub Maps : State → Outcome MmapUnix.Error MmapRegion × State → Type 0
  Maps s (ok r, s') =
      (r.owned ≡ true) × ((a n : ℕ) → live s' a n ≡ live s a n + one r.addr r.size a n)
  Maps s (err e, s') = (a n : ℕ) → live s' a n ≡ live s a n
  Maps s (panic, s') = ⊥
  Maps s (stuck, s') = ⊥

  map_backed-Maps :
      (f : Option FileOffset) (size prot flags : ℕ) (s : State)
      (b : Outcome MmapUnix.Error (Option ℕ × ℕ))
      → Checks os f size flags s b
      → Maps s (map_backed os f size prot flags b s)
  unfolding Maps
  map_backed-Maps f size prot flags s (ok (fd, at)) c =
      by_call (os.mmap size prot flags fd at s) refl
    where
      by_call :
          (o : Sys ℕ × State)
          → os.mmap size prot flags fd at s ≡ o
          → Maps s (MmapUnix.mapped os f size prot flags o)
      by_call (done addr, s') e = (
        refl,
        λ a n.
            sym (ap (λ t. live t.1 a n) e)
            ∙ laws.maps size prot flags fd at addr s (ap (λ t. t.0) e) a n,
      )
      by_call (failed x, s') e = λ a n.
          sym (ap (λ t. live t.1 a n) e)
          ∙ laws.fails size prot flags fd at x s (ap (λ t. t.0) e) a n
  map_backed-Maps f size prot flags s (err e) c = λ a n. refl
  map_backed-Maps f size prot flags s panic c = c
  map_backed-Maps f size prot flags s stuck c = c

  build-Maps :
      (f : Option FileOffset) (size prot flags : ℕ) (s : State)
      → Maps s (build os f size prot flags s)
  unfolding build Maps
  build-Maps f size prot flags s = elim (Bool-cases (bit_and flags os.map_fixed_bit == 0)) [
    | inl free ↦ rw free (
        map_backed-Maps f size prot flags s (backing os f size s)
          (backing-Checks os f size flags s))
    | inr fixed ↦ rw fixed (λ a n. refl)
  ]

  pub map_memory-Maps :
      (size : ℕ) (f : Option FileOffset) (s : State) → Maps s (map_memory os pid size f s)
  unfolding map_memory MmapUnix.new from_file
  map_memory-Maps size (some f) s =
      build-Maps (some f) size (bit_or os.prot_read os.prot_write)
        (bit_or os.map_noreserve os.map_shared) s
  map_memory-Maps size none s =
      build-Maps none size (bit_or os.prot_read os.prot_write)
        (bit_or (bit_or os.map_anonymous os.map_noreserve) os.map_private) s
