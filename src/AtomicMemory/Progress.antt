-- ===== src/AtomicMemory/Progress.antt =====
-- Which threads can come to hold an exclusive guard.
use vm_memory.Base.{
  ℕ, ◌≡◌, refl, ◌⊎◌, inl, inr, Bool, true, false, none, some, arith, Bool-cases, Option-cases,
}
use vm_memory.AtomicMemory.{
  ArcSwap, Stage, outside, exclusive, replaced, leaked, blocked, Action, acquire, release, System,
  update, left, dispatch, act, Reach,
}
use vm_memory.AtomicMemory.Invariant.{has_guard, IsOwned, act-IsOwned, Reach-IsOwned}

-- A thread that holds the mutex and never gives it up: it leaked its guard, or waits for itself.
abbrev pub is_lost : Stage → Bool
is_lost outside = false
is_lost exclusive = false
is_lost replaced = false
is_lost leaked = true
is_lost blocked = true

module _ {A M : Type 0} (sw : ArcSwap A M) where
  -- Any moves.
  pub data Runs (s : System A M) : System A M → Type 0 where
    stays : Runs s s
    goes_on :
        {t u : System A M} (i : ℕ) (a : Action M) → Runs s t → act sw a i t ≡ some u → Runs s u

  acquire_free :
      (i : ℕ) (s : System A M)
      → s.stage i ≡ outside
      → s.shared.owner ≡ none
      → (t : System A M) × (act sw acquire i s ≡ some t) × (t.stage i ≡ exclusive)
  unfolding act dispatch
  acquire_free i s out free = (
    record s { shared = record s.shared { owner = some i }; stage = update s.stage i exclusive },
    ground arith,
    ground arith,
  )

  release_held :
      (j : ℕ) (s : System A M)
      → has_guard (s.stage j) ≡ true
      → is_lost (s.stage j) ≡ false
      → act sw release j s ≡ some (left sw j false s)
  unfolding act dispatch
  release_held j s holds kept = ground arith

  -- Thread `i` is outside, and a lost thread `j` owns the mutex.
  record IsShutOut (i j : ℕ) (s : System A M) : Type 0 where
    out : s.stage i ≡ outside
    owned : s.shared.owner ≡ some j
    lost : is_lost (s.stage j) ≡ true

  act-IsShutOut :
      (i j k : ℕ) (a : Action M) (s t : System A M)
      → IsShutOut i j s
      → IsOwned s
      → act sw a k s ≡ some t
      → IsShutOut i j t
  unfolding act dispatch
  act-IsShutOut i j k a s t h inv e =
      let mine = inv.holder_owns k in
      record {
        out = ground (arith, h.out, h.owned, h.lost, mine);
        owned = ground (arith, h.out, h.owned, h.lost, mine);
        lost = ground (arith, h.out, h.owned, h.lost, mine);
      }

  Runs-IsOwned : (s t : System A M) → IsOwned s → Runs s t → IsOwned t
  Runs-IsOwned s t inv stays = inv
  Runs-IsOwned s t inv (goes_on {t = u} i a r e) = act-IsOwned sw a i (Runs-IsOwned s u inv r) e

  Runs-IsShutOut :
      (i j : ℕ) (s t : System A M) → IsShutOut i j s → IsOwned s → Runs s t → IsShutOut i j t
  Runs-IsShutOut i j s t h inv stays = h
  Runs-IsShutOut i j s t h inv (goes_on {t = u} k a r e) =
      act-IsShutOut i j k a u t (Runs-IsShutOut i j s u h inv r) (Runs-IsOwned s u inv r) e

  -- From every state that the threads can lead to, for a thread outside: moves lead to a state where
  -- it holds an exclusive guard, the release of the one that another thread holds among them; or the
  -- mutex belongs to a thread that leaked its guard or locks it again while it holds it, and then the
  -- thread is outside after any moves.
  pub acquire-Runs :
      (new_map : M) (i : ℕ) (s : System A M)
      → Reach sw new_map s
      → s.stage i ≡ outside
      → ((t : System A M) × Runs s t × (t.stage i ≡ exclusive))
        ⊎ ((j : ℕ) × (s.shared.owner ≡ some j)
            × (is_lost (s.stage j) ≡ true)
            × ((t : System A M) → Runs s t → t.stage i ≡ outside))
  acquire-Runs new_map i s r out = elim (Option-cases s.shared.owner) [
    | inl free ↦ let (t, e, x) = acquire_free i s out free in inl (t, goes_on i acquire stays e, x)
    | inr (j, owned) ↦ elim (Bool-cases (is_lost (s.stage j))) [
      | inl lost ↦ inr (
        j,
        owned,
        lost,
        λ t run.
            let shut =
              Runs-IsShutOut i j s t (record { out = out; owned = owned; lost = lost })
                (Reach-IsOwned sw r) run in
            shut.out,
      )
      | inr kept ↦
          let holds = (Reach-IsOwned sw r).owner_holds j owned in
          let released : act sw release j s ≡ some (left sw j false s) =
            release_held j s holds kept in
          let apart : (left sw j false s).stage i ≡ outside = ground arith in
          let (t, e, x) = acquire_free i (left sw j false s) apart refl in
          inl (t, goes_on i acquire (goes_on j release stays released) e, x)
    ]
  ]
