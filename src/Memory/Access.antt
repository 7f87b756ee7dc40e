-- ===== src/Memory/Access.antt =====
-- A rule for `try_access`: what holds after it, from what one call of the callback does.
use mathlib.Core.Path.{subst}
use vm_memory.Base.{
  ℕ, zero, suc, ◌+◌, ◌-◌, ◌≤◌, ◌<◌, min, ◌≡◌, refl, sym, ◌⊎◌, inl, inr, none, some, arith,
  Option-cases, word, wrapping_sub, Outcome, panic, stuck, err, ok,
}
use vm_memory.Region.{Error, GuestMemoryRegion}
use vm_memory.Memory.{
  GuestMemory, Progress, stop, go, finish, after_call, proceed, access_step, access_loop,
  try_access,
}
use vm_memory.Region

-- What is relied on of an implementation of `GuestMemory`: a region is found exactly at its
-- addresses, and no region reaches the end of the address space.
pub record IsGuestMemory {M R : Type 0} (g : GuestMemoryRegion R) (gm : GuestMemory M R) (m : M)
    : Type 0 where
  pub found_in :
      (a : ℕ) (r : R)
      → gm.find_region m a ≡ some r
      → (g.start_addr r ≤ a) × (a < g.start_addr r + g.len r)
  pub found_whole :
      (a b : ℕ) (r : R)
      → gm.find_region m a ≡ some r
      → g.start_addr r ≤ b
      → b < g.start_addr r + g.len r
      → gm.find_region m b ≡ some r
  pub bounded : (a : ℕ) (r : R) → gm.find_region m a ≡ some r → g.start_addr r + g.len r < word

module _ {M R S : Type 0} (g : GuestMemoryRegion R) (gm : GuestMemory M R) (m : M)
    (laws : IsGuestMemory g gm m) (count addr : ℕ) (count_u64 : count < word)
    (f : ℕ → ℕ → ℕ → R → S → Outcome Error ℕ × S) (P : ℕ → S → Type 0)
    (Q : Outcome Error ℕ → S → Type 0) where
  -- What a call of the callback leads to, when it was asked for `len` bytes after `total`.
  abbrev pub Serves : ℕ → ℕ → Outcome Error ℕ × S → Type 0
  Serves total len (ok n, s) = (n ≤ len) × (n ≡ 0 → Q (ok total) s) × (0 < n → P (total + n) s)
  Serves total len (err e, s) = Q (err e) s
  Serves total len (panic, s) = Q panic s
  Serves total len (stuck, s) = Q stuck s

  -- Where one round may stop or go on.
  abbrev Stands : ℕ → Progress S → Type 0
  Stands total (stop r s) = Q r s
  Stands total (go cur total' s) =
      (cur ≡ addr + total') × (total < total') × (total' < count) × P total' s

  -- At a callable place: bytes are left, or none were asked for.
  abbrev pub IsDue : ℕ → Type 0
  IsDue total = (total < count) ⊎ ((total ≡ 0) × (count ≡ 0))

  after_call-Stands :
      (total len : ℕ) (r : Outcome Error ℕ) (s : S)
      → IsDue total
      → len ≤ count - total
      → addr + total + len < word
      → Serves total len (r, s)
      → ((n : ℕ) (t : S) → P n t → n ≡ count → 0 < n → Q (finish addr n) t)
      → Stands total (after_call count addr (addr + total) total (r, s))
  unfolding after_call
  after_call-Stands total len (ok n) s due fit room h end = ground (arith, end (total + n) s)
  after_call-Stands total len (err e) s due fit room h end = h
  after_call-Stands total len panic s due fit room h end = h
  after_call-Stands total len stuck s due fit room h end = h

  -- What the rule asks: the callback serves every call that the loop makes, and `Q` holds where the
  -- loop ends by itself, at a hole or when all is done.
  pub record IsServing : Type 0 where
    pub call :
        (total start len : ℕ) (r : R) (s : S)
        → P total s
        → IsDue total
        → gm.find_region m (addr + total) ≡ some r
        → g.start_addr r + start ≡ addr + total
        → len ≡ min (g.len r - start) (count - total)
        → Serves total len (f total len start r s)
    pub hole :
        (total : ℕ) (s : S)
        → P total s
        → IsDue total
        → gm.find_region m (addr + total) ≡ none
        → Q (finish addr total) s
    pub full : (s : S) → P count s → 0 < count → Q (finish addr count) s

  module _ (serving : IsServing) where
    access_step-Stands :
        (total : ℕ) (s : S)
        → IsDue total
        → P total s
        → Stands total (
            access_step g gm m count addr f
              (addr + total)
              total
              s
              (gm.find_region m (addr + total)))
    unfolding access_step
    access_step-Stands total s due p = elim (Option-cases (gm.find_region m (addr + total))) [
      | inl hole_here ↦ rw hole_here (serving.hole total s p due hole_here)
      | inr (r, e) ↦
          let inside = laws.found_in (addr + total) r e in
          let bound = laws.bounded (addr + total) r e in
          let start = addr + total - g.start_addr r in
          let len = min (g.len r - start) (count - total) in
          let at : Region.to_region_addr g r (addr + total) ≡ some start = ground arith in
          let cap : wrapping_sub (g.len r) start ≡ g.len r - start = omega arith in
          let rest : wrapping_sub count total ≡ count - total = omega arith in
          rw (e, at, cap, rest)
            (after_call-Stands total len (f total len start r s).0 (f total len start r s).1 due
              (omega arith) (omega arith)
              (serving.call total start len r s p due e (omega arith) refl)
              (λ n t q k pos.
                subst (λ j. Q (finish addr j) t) (sym k)
                  (serving.full t (subst (λ j. P j t) k q) (omega arith))))
    ]

    access_loop_lem :
        (fuel total : ℕ) (s : S)
        → IsDue total
        → count < total + fuel
        → P total s
        → let (r, t) = access_loop g gm m count addr f fuel (addr + total) total s in Q r t
    unfolding access_loop
    access_loop_lem zero total s due enough p = absurd (omega arith)
    access_loop_lem (suc fuel) total s due enough p =
        proceed_lem (access_loop_lem fuel)
          (access_step g gm m count addr f (addr + total) total s (gm.find_region m (addr + total)))
          (access_step-Stands total s due p)
      where
        proceed_lem :
            ((n : ℕ) (t : S)
              → IsDue n
              → count < n + fuel
              → P n t
              → let (r, u) = access_loop g gm m count addr f fuel (addr + n) n t in Q r u)
            → (x : Progress S) → Stands total x
            → let (r, t) = proceed (access_loop g gm m count addr f fuel) x in Q r t
        proceed_lem ih (stop r s') h = h
        proceed_lem ih (go cur' total' s') h =
            rw (h.0) (ih total' s' (inl h.2) (omega (arith, h.1)) h.3)

    -- A served access ends, as `Q` says.
    pub try_access_lem : (s : S) → P 0 s → let (r, t) = try_access g gm m count addr f s in Q r t
    unfolding try_access
    try_access_lem s p =
        let here : addr + 0 ≡ addr = omega arith in
        let done = access_loop_lem (suc count) 0 s (ground arith) (omega arith) p in rw here at done
