-- ===== src/AtomicMemory/Invariant.antt =====
-- At most one thread holds an exclusive guard, and it owns the mutex.
use vm_memory.Base.{ℕ, ◌≡◌, refl, Bool, true, false, some, arith}
use vm_memory.AtomicMemory.{
  ArcSwap, Stage, outside, exclusive, replaced, leaked, blocked, Action, System, start, dispatch,
  act, Reach, begin, then_act,
}

abbrev pub has_guard : Stage → Bool
has_guard outside = false
has_guard exclusive = true
has_guard replaced = true
has_guard leaked = true
has_guard blocked = true

pub record IsOwned {A M : Type 0} (s : System A M) : Type 0 where
  pub holder_owns : (i : ℕ) → has_guard (s.stage i) ≡ true → s.shared.owner ≡ some i
  pub owner_holds : (i : ℕ) → s.shared.owner ≡ some i → has_guard (s.stage i) ≡ true

module _ {A M : Type 0} (sw : ArcSwap A M) where
  dispatch-holder_owns :
      (p : Stage) (a : Action M) (i : ℕ) (s t : System A M)
      → s.stage i ≡ p
      → IsOwned s
      → dispatch sw p a i s ≡ some t
      → (j : ℕ) → has_guard (t.stage j) ≡ true
      → t.shared.owner ≡ some j
  unfolding dispatch
  dispatch-holder_owns p a i s t at inv e j h = ground (arith, inv.holder_owns j, inv.holder_owns i)

  dispatch-owner_holds :
      (p : Stage) (a : Action M) (i : ℕ) (s t : System A M)
      → s.stage i ≡ p
      → IsOwned s
      → dispatch sw p a i s ≡ some t
      → (j : ℕ) → t.shared.owner ≡ some j
      → has_guard (t.stage j) ≡ true
  unfolding dispatch
  dispatch-owner_holds p a i s t at inv e j h = ground (arith, inv.owner_holds j, inv.holder_owns i)

  pub start-IsOwned : (new_map : M) → IsOwned (start sw new_map)
  start-IsOwned new_map = record { holder_owns = λ i h. cc; owner_holds = λ i h. cc }

  pub act-IsOwned :
      (a : Action M) (i : ℕ) {s t : System A M} → IsOwned s → act sw a i s ≡ some t → IsOwned t
  unfolding act
  act-IsOwned a i {s} {t} inv e = record {
    holder_owns = dispatch-holder_owns (s.stage i) a i s t refl inv e;
    owner_holds = dispatch-owner_holds (s.stage i) a i s t refl inv e;
  }

  -- In every state that the threads can lead to, a thread has or has leaked an exclusive guard
  -- exactly if it owns the mutex.
  pub Reach-IsOwned : {new_map : M} {s : System A M} → Reach sw new_map s → IsOwned s
  Reach-IsOwned {new_map} begin = start-IsOwned new_map
  Reach-IsOwned (then_act i a r e) = act-IsOwned a i (Reach-IsOwned r) e

  -- In no state that threads can lead to from a new object, two threads have exclusive guards.
  pub exclusive_guards :
      {new_map : M} {s : System A M} (i j : ℕ)
      → Reach sw new_map s
      → has_guard (s.stage i) ≡ true
      → has_guard (s.stage j) ≡ true
      → i ≡ j
  exclusive_guards i j r p q =
      let inv = Reach-IsOwned r in ground (arith, inv.holder_owns i p, inv.holder_owns j q)
