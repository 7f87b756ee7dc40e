-- ===== src/AtomicMemory/Steps.antt =====
-- What one move does to the map, to where the threads stand and to their load guards.
use vm_memory.Base.{ℕ, ◌≡◌, ◌≢◌, inl, inr, false, some, List, [], ◌∷◌, arith, ◌==◌, Bool-cases, All}
use vm_memory.AtomicMemory.{
  ArcSwap, IsArcSwap, memory, Stage, exclusive, replaced, Action, load_memory, clone_guard,
  drop_guard, acquire, release, unwind, leak, replace, System, dispatch, act,
}
use mathlib.Core.Path.{subst}

module _ {A M : Type 0} (sw : ArcSwap A M) where
  -- A move other than a replacement leaves the map.
  abbrev pub IsQuiet : Action M → Type 0
  IsQuiet (replace m) = ⊥
  IsQuiet load_memory = Unit
  IsQuiet clone_guard = Unit
  IsQuiet drop_guard = Unit
  IsQuiet acquire = Unit
  IsQuiet release = Unit
  IsQuiet unwind = Unit
  IsQuiet leak = Unit

  pub dispatch-memory :
      (p : Stage) (a : Action M) (i : ℕ) (s t : System A M)
      → IsQuiet a
      → dispatch sw p a i s ≡ some t
      → memory sw t.shared ≡ memory sw s.shared
  unfolding dispatch
  dispatch-memory p a i s t q e = ground arith

  -- No other thread comes to stand at `exclusive` by a move.
  pub dispatch-others :
      (p : Stage) (a : Action M) (i j : ℕ) (s t : System A M)
      → dispatch sw p a i s ≡ some t
      → (i == j) ≡ false
      → (t.stage j ≡ s.stage j) × (t.guards j ≡ s.guards j)
  unfolding dispatch
  dispatch-others p a i j s t e ne = ground arith

  -- The guards that the moving thread then has.
  abbrev copied_first : List M → List M
  copied_first [] = []
  copied_first (g ∷ gs) = g ∷ g ∷ gs

  abbrev without_first : List M → List M
  without_first [] = []
  without_first (g ∷ gs) = gs

  abbrev guards_after : Action M → M → List M → List M
  guards_after load_memory m gs = m ∷ gs
  guards_after clone_guard m gs = copied_first gs
  guards_after drop_guard m gs = without_first gs
  guards_after acquire m gs = gs
  guards_after release m gs = gs
  guards_after unwind m gs = gs
  guards_after leak m gs = gs
  guards_after (replace new_map) m gs = gs

  pub dispatch-guards :
      (p : Stage) (a : Action M) (i : ℕ) (s t : System A M)
      → dispatch sw p a i s ≡ some t
      → t.guards i ≡ guards_after a (memory sw s.shared) (s.guards i)
  unfolding dispatch
  dispatch-guards p a i s t e = ground arith

  All-guards_after :
      (Q : M → Type 0) (a : Action M) (m : M) (gs : List M)
      → Q m
      → All Q gs
      → All Q (guards_after a m gs)
  All-guards_after Q load_memory m gs now q = (now, q)
  All-guards_after Q clone_guard m [] now q = tt
  All-guards_after Q clone_guard m (g ∷ gs) now q = (q.0, (q.0, q.1))
  All-guards_after Q drop_guard m [] now q = tt
  All-guards_after Q drop_guard m (g ∷ gs) now q = q.1
  All-guards_after Q acquire m gs now q = q
  All-guards_after Q release m gs now q = q
  All-guards_after Q unwind m gs now q = q
  All-guards_after Q leak m gs now q = q
  All-guards_after Q (replace new_map) m gs now q = q

  -- Where the guards and the map of a state are past ones, so are the guards of the next.
  pub act-snapshots :
      (Q : M → Type 0) (a : Action M) (i j : ℕ) (s t : System A M)
      → Q (memory sw s.shared)
      → ((k : ℕ) → All Q (s.guards k))
      → act sw a i s ≡ some t
      → All Q (t.guards j)
  unfolding act
  act-snapshots Q a i j s t now q e = elim (Bool-cases (i == j)) [
    | inl same ↦
        let i_j : i ≡ j = ground arith in
        subst (λ k. All Q (t.guards k)) i_j
          (rw (dispatch-guards (s.stage i) a i s t e)
            (All-guards_after Q a (memory sw s.shared) (s.guards i) now (q i)))
    | inr other ↦ rw ((dispatch-others (s.stage i) a i j s t e other).1) (q j)
  ]

  -- A thread that does not lock by a move stands at `exclusive` only if it did before.
  pub dispatch-own :
      (p : Stage) (a : Action M) (i : ℕ) (s t : System A M)
      → a ≢ acquire
      → s.stage i ≡ p
      → dispatch sw p a i s ≡ some t
      → t.stage i ≡ exclusive
      → s.stage i ≡ exclusive
  unfolding dispatch
  dispatch-own p a i s t na at e x = ground arith

  pub replace_step :
      IsArcSwap sw
      → (p : Stage) (m : M) (i : ℕ) (s t : System A M) → s.stage i ≡ p
      → dispatch sw p (replace m) i s ≡ some t
      → (memory sw t.shared ≡ m) × (s.stage i ≡ exclusive) × (t.stage i ≡ replaced)
  unfolding dispatch
  replace_step laws p m i s t at e = ground (arith, laws.load-store m s.shared.swap)
