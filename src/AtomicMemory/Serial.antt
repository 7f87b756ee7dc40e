-- ===== src/AtomicMemory/Serial.antt =====
-- The map is always the first one with the changes of all threads made one after another.
use vm_memory.Base.{
  ℕ, ◌≡◌, refl, sym, ap, ◌∙◌, ◌≢◌, inl, inr, false, Option, none, some, List, [], ◌∷◌, ◌++◌, arith,
  ◌==◌, Bool-cases, All,
}
use vm_memory.AtomicMemory.{
  ArcSwap, IsArcSwap, memory, exclusive, Action, load_memory, clone_guard, drop_guard, acquire,
  release, unwind, leak, replace, System, update, act,
}
use vm_memory.AtomicMemory.Invariant.{start-IsOwned, act-IsOwned}
use vm_memory.AtomicMemory.Steps.{
  IsQuiet, dispatch-memory, dispatch-others, act-snapshots, dispatch-own, replace_step,
}
use vm_memory.AtomicMemory.History.{
  Move, read_map, copy_snapshot, drop_snapshot, enter, leave, panic_out, leak_guard, change_map,
  Threads, applied, moved, change_seen, move, Moves, no_moves, one_more, IsPast, IsSerial,
}
use mathlib.Core.List.{append-nil, append_assoc}
use mathlib.Core.Path.{subst}

module _ {A M C : Type 0} (sw : ArcSwap A M) (change : M → C → M) (laws : IsArcSwap sw) where
  applied-snoc :
      (cs : List C) (c : C) (m : M)
      → applied sw change (cs ++ c ∷ []) m ≡ change (applied sw change cs m) c
  unfolding applied
  applied-snoc [] c m = refl
  applied-snoc (x ∷ cs) c m = applied-snoc cs c (change m x)

  IsPast-snoc :
      (first : M) (h : List C) (c : C) (m : M)
      → IsPast sw change first h m
      → IsPast sw change first (h ++ c ∷ []) m
  IsPast-snoc first h c m (past, later, e, p) =
      (past, later ++ c ∷ [], sym (append_assoc past later (c ∷ [])) ∙ ap (λ t. t ++ c ∷ []) e, p)

  All-snoc :
      (first : M) (h : List C) (c : C) (gs : List M)
      → All (IsPast sw change first h) gs
      → All (IsPast sw change first (h ++ c ∷ [])) gs
  All-snoc first h c [] q = tt
  All-snoc first h c (g ∷ gs) q = (IsPast-snoc first h c g q.0, All-snoc first h c gs q.1)

  -- The current map is a past one.
  now-IsPast :
      (first : M) (h : List C) (m : M) → m ≡ applied sw change h first → IsPast sw change first h m
  now-IsPast first h m e = (h, [], append-nil h, e)

  -- A quiet move that is not `acquire`, by which the thread may see the current map.
  quiet-IsSerial :
      (a : Action M) (i : ℕ) (first : M) (d : Threads A M C) (s : System A M) (seen : ℕ → Option M)
      → IsQuiet sw a
      → ((m : M) → s.stage i ≡ exclusive → seen i ≡ some m → m ≡ memory sw d.system.shared)
      → ((j : ℕ) → (i == j) ≡ false → seen j ≡ d.seen j)
      → IsSerial sw change first d
      → act sw a i d.system ≡ some s
      → IsSerial sw change first (record { system = s; seen = seen; history = d.history })
  unfolding act
  quiet-IsSerial a i first d s seen quiet own rest inv e =
      let same = dispatch-memory sw (d.system.stage i) a i d.system s quiet e in
      record {
        owned = act-IsOwned sw a i inv.owned e;
        current = same ∙ inv.current;
        fresh = λ j m x saw. elim (Bool-cases (i == j)) [
          | inl mine ↦ let i_j : i ≡ j = ground arith in own m (rw i_j x) (rw i_j saw) ∙ sym same
          | inr other ↦
              let there = (dispatch-others sw (d.system.stage i) a i j d.system s e other).0 in
              inv.fresh j m (sym there ∙ x) (sym (rest j other) ∙ saw) ∙ sym same
        ];
        snapshots = λ j.
            act-snapshots sw (IsPast sw change first d.history) a i j d.system s
              (now-IsPast first d.history (memory sw d.system.shared) inv.current) inv.snapshots e;
      }

  -- Only the owner replaces, which has seen the current map, and no other thread stands at
  -- `exclusive`.
  change-IsSerial :
      (i : ℕ) (c : C) (first m : M) (d : Threads A M C) (s : System A M)
      → d.seen i ≡ some m
      → IsSerial sw change first d
      → act sw (replace (change m c)) i d.system ≡ some s
      → IsSerial sw change first
          (record { system = s; seen = d.seen; history = d.history ++ c ∷ [] })
  unfolding act
  change-IsSerial i c first m d s saw inv e =
      let (new, mine, left_it) =
        replace_step sw laws (d.system.stage i) (change m c) i d.system s refl e in
      let known : m ≡ applied sw change d.history first = inv.fresh i m mine saw ∙ inv.current in
      let owns = inv.owned.holder_owns i (rw mine refl) in
      record {
        owned = act-IsOwned sw (replace (change m c)) i inv.owned e;
        current = new ∙ ap (λ x. change x c) known ∙ sym (applied-snoc d.history c first);
        fresh = λ j m' x saw'. elim (Bool-cases (i == j)) [
          | inl same ↦
              let i_j : i ≡ j = ground arith in let here : s.stage i ≡ exclusive = rw i_j x in cc
          | inr other ↦
              let there =
                (dispatch-others sw (d.system.stage i) (replace (change m c)) i j d.system s e
                  other).0 in
              let owns' = inv.owned.holder_owns j (rw (sym there ∙ x) refl) in
              ground (arith, owns, owns')
        ];
        snapshots = λ j. All-snoc first d.history c (s.guards j) (
            act-snapshots sw (IsPast sw change first d.history) (replace (change m c)) i j d.system
              s (now-IsPast first d.history (memory sw d.system.shared) inv.current) inv.snapshots
              e);
      }

  moved-some :
      (seen : ℕ → Option M) (h : List C) (o : Option (System A M)) (d : Threads A M C)
      → moved sw change seen h o ≡ some d
      → (s : System A M) × (o ≡ some s) × (record { system = s; seen = seen; history = h } ≡ d)
  moved-some seen h none d e = cc
  moved-some seen h (some s) d e = (s, refl, ground arith)

  change_seen-some :
      (i : ℕ) (c : C) (first : M) (d e : Threads A M C) (o : Option M)
      → d.seen i ≡ o
      → IsSerial sw change first d
      → change_seen sw change i c d o ≡ some e
      → IsSerial sw change first e
  change_seen-some i c first d e none saw inv x = cc
  change_seen-some i c first d e (some m) saw inv x =
      let (s, did, same) = moved-some _ _ _ e x in
      subst (IsSerial sw change first) same (change-IsSerial i c first m d s saw inv did)

  -- A move that does not lock or load leaves what the thread has seen.
  kept-IsSerial :
      (a : Action M) (i : ℕ) (first : M) (d e : Threads A M C)
      → IsQuiet sw a
      → a ≢ acquire
      → IsSerial sw change first d
      → moved sw change d.seen d.history (act sw a i d.system) ≡ some e
      → IsSerial sw change first e
  unfolding act
  kept-IsSerial a i first d e quiet na inv x =
      let (s, did, same) = moved-some _ _ _ e x in
      subst (IsSerial sw change first) same (
        quiet-IsSerial a i first d s d.seen quiet
          (λ m here saw.
            inv.fresh i m (dispatch-own sw (d.system.stage i) a i d.system s na refl did here) saw)
          (λ j other. refl) inv did)

  seen-IsSerial :
      (a : Action M) (i : ℕ) (first : M) (d e : Threads A M C) (o : Option M)
      → IsQuiet sw a
      → ((m : M) → o ≡ some m → m ≡ memory sw d.system.shared)
      → IsSerial sw change first d
      → moved sw change (update d.seen i o) d.history (act sw a i d.system) ≡ some e
      → IsSerial sw change first e
  seen-IsSerial a i first d e o quiet current inv x =
      let (s, did, same) = moved-some _ _ _ e x in
      subst (IsSerial sw change first) same (
        quiet-IsSerial a i first d s (update d.seen i o) quiet
          (λ m here saw. current m (ground arith)) (λ j other. ground arith) inv did)

  move-IsSerial :
      (x : Move C) (i : ℕ) (first : M) (d e : Threads A M C)
      → IsSerial sw change first d
      → move sw change x i d ≡ some e
      → IsSerial sw change first e
  move-IsSerial read_map i first d e inv x =
      seen-IsSerial load_memory i first d e (some (memory sw d.system.shared)) tt (λ m saw. cc) inv
        x
  move-IsSerial enter i first d e inv x =
      seen-IsSerial acquire i first d e none tt (λ m saw. cc) inv x
  move-IsSerial copy_snapshot i first d e inv x =
      kept-IsSerial clone_guard i first d e tt (λ p. cc) inv x
  move-IsSerial drop_snapshot i first d e inv x =
      kept-IsSerial drop_guard i first d e tt (λ p. cc) inv x
  move-IsSerial leave i first d e inv x = kept-IsSerial release i first d e tt (λ p. cc) inv x
  move-IsSerial panic_out i first d e inv x = kept-IsSerial unwind i first d e tt (λ p. cc) inv x
  move-IsSerial leak_guard i first d e inv x = kept-IsSerial leak i first d e tt (λ p. cc) inv x
  move-IsSerial (change_map c) i first d e inv x =
      change_seen-some i c first d e (d.seen i) refl inv x

  all-IsSerial :
      (first : M) (d : Threads A M C) → Moves sw change first d → IsSerial sw change first d
  unfolding applied
  all-IsSerial first d no_moves = record {
    owned = start-IsOwned sw first;
    current = laws.load-new first;
    fresh = λ i m x saw. cc;
    snapshots = λ i. tt;
  }
  all-IsSerial first last (one_more {d} i x r e) =
      move-IsSerial x i first d last (all-IsSerial first d r) e

  -- Over a cell that has what was last stored in it: whatever threads do in any order, where each
  -- changes the map that it has loaded under its exclusive guard, the map is the first one with all
  -- changes made one after another, and every load guard of every thread has the map as it was after
  -- some first ones of them.
  pub Moves-IsSerial :
      (first : M) (d : Threads A M C)
      → Moves sw change first d
      → (memory sw d.system.shared ≡ applied sw change d.history first)
        × ((i : ℕ) → All (IsPast sw change first d.history) (d.system.guards i))
  Moves-IsSerial first d r = let inv = all-IsSerial first d r in (inv.current, inv.snapshots)
