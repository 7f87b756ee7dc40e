-- ===== src/AtomicMemory/History.antt =====
-- Threads that update the map one after another: each locks, then loads the map, and then replaces it
-- by a changed one, while all of them load, clone and drop snapshots as they like.
use vm_memory.Base.{ℕ, ◌≡◌, Option, none, some, List, [], ◌∷◌, ◌++◌, All}
use vm_memory.AtomicMemory.{
  ArcSwap, memory, exclusive, load_memory, clone_guard, drop_guard, acquire, release, unwind, leak,
  replace, System, update, start, act,
}
use vm_memory.AtomicMemory.Invariant.{IsOwned}

-- What a thread may do next; `change_map` replaces the map by a change of the one it has seen.
pub data Move (C : Type 0) : Type 0 where
  read_map copy_snapshot drop_snapshot enter leave panic_out leak_guard : Move C
  change_map : C → Move C

-- The threads, the map that each has loaded since it has locked, and the changes in their order.
pub record Threads (A M C : Type 0) : Type 0 where
  pub system : System A M
  pub seen : ℕ → Option M
  pub history : List C

module _ {A M C : Type 0} (sw : ArcSwap A M) (change : M → C → M) where
  -- All changes, the first one first.
  unfoldable pub applied : List C → M → M
  applied [] m = m
  applied (c ∷ cs) m = applied cs (change m c)

  abbrev pub begin_with : M → Threads A M C
  begin_with m = record { system = start sw m; seen = λ i. none; history = [] }

  abbrev pub moved : (ℕ → Option M) → List C → Option (System A M) → Option (Threads A M C)
  moved seen history none = none
  moved seen history (some s) = some (record { system = s; seen = seen; history = history })

  abbrev pub change_seen : ℕ → C → Threads A M C → Option M → Option (Threads A M C)
  change_seen i c d none = none
  change_seen i c d (some m) =
      moved d.seen (d.history ++ c ∷ []) (act sw (replace (change m c)) i d.system)

  abbrev pub move : Move C → ℕ → Threads A M C → Option (Threads A M C)
  move read_map i d =
      moved (update d.seen i (some (memory sw d.system.shared))) d.history
        (act sw load_memory i d.system)
  move copy_snapshot i d = moved d.seen d.history (act sw clone_guard i d.system)
  move drop_snapshot i d = moved d.seen d.history (act sw drop_guard i d.system)
  move enter i d = moved (update d.seen i none) d.history (act sw acquire i d.system)
  move leave i d = moved d.seen d.history (act sw release i d.system)
  move panic_out i d = moved d.seen d.history (act sw unwind i d.system)
  move leak_guard i d = moved d.seen d.history (act sw leak i d.system)
  move (change_map c) i d = change_seen i c d (d.seen i)

  -- Any moves of any threads, in any order.
  pub data Moves (m : M) : Threads A M C → Type 0 where
    no_moves : Moves m (begin_with m)
    one_more :
        {d e : Threads A M C} (i : ℕ) (x : Move C) → Moves m d → move x i d ≡ some e → Moves m e

  -- A map that was the current one at some time.
  abbrev pub IsPast : M → List C → M → Type 0
  IsPast first history m =
      (past later : List C) × (past ++ later ≡ history) × (m ≡ applied past first)

  pub record IsSerial (first : M) (d : Threads A M C) : Type 0 where
    pub owned : IsOwned d.system
    pub current : memory sw d.system.shared ≡ applied d.history first
    pub fresh :
        (i : ℕ) (m : M)
        → d.system.stage i ≡ exclusive
        → d.seen i ≡ some m
        → m ≡ memory sw d.system.shared
    pub snapshots : (i : ℕ) → All (IsPast first d.history) (d.system.guards i)
