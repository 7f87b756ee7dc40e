-- ===== src/AtomicMemory/Tests.antt =====
-- Two threads.
use vm_memory.Base.{ℕ, ◌+◌, ◌≡◌, refl, ◌⊎◌, true, Option, none, some, [], ◌∷◌, All}
use vm_memory.AtomicMemory.{
  poison_error, memory, lock, outside, exclusive, blocked, Action, acquire, release, unwind, System,
  start, act, begin, then_act,
}
use vm_memory.AtomicMemory.Sample.{cell, cell-IsArcSwap}
use vm_memory.AtomicMemory.Invariant.{exclusive_guards}
use vm_memory.AtomicMemory.Progress.{is_lost, Runs, acquire-Runs}
use vm_memory.AtomicMemory.History.{
  Move, read_map, enter, change_map, Threads, applied, begin_with, move, no_moves, one_more, IsPast,
}
use vm_memory.AtomicMemory.Serial.{Moves-IsSerial}

abbrev or_else : Option (System ℕ ℕ) → System ℕ ℕ → System ℕ ℕ
or_else none s = s
or_else (some t) s = t

-- The state after a move that is possible.
stepped : Action ℕ → ℕ → System ℕ ℕ → System ℕ ℕ
unfolding act
stepped a i s = or_else (act cell a i s) s

abbrev acquired_by_1 : System ℕ ℕ
acquired_by_1 = stepped acquire 1 (start cell 10)

-- Thread 2 has to wait while thread 1 holds the guard, and still reads.
waiting : act cell acquire 2 acquired_by_1 ≡ none
unfolding act stepped
waiting = refl

-- A panic of the holder poisons the mutex, and the next holder is told so.
poisoned_run :
    (lock 2 (stepped unwind 1 acquired_by_1).shared
      ≡ some (poison_error, record { swap = 10; owner = some 2; poisoned = true }))
unfolding stepped
poisoned_run = refl

exclusive_guards_example : ◌≡◌ {A = ℕ} 1 1
unfolding act stepped
exclusive_guards_example =
    exclusive_guards cell {new_map = 10} {s = acquired_by_1} 1 1 (then_act 1 acquire begin refl)
      refl refl

-- A holder that locks again waits for itself.
abbrev blocked_1 : System ℕ ℕ
blocked_1 = stepped acquire 1 acquired_by_1

blocked_run : (blocked_1.stage 1 ≡ blocked) × (act cell release 1 blocked_1 ≡ none)
unfolding act stepped
blocked_run = (refl, refl)

acquire-Runs_example :
    ((t : System ℕ ℕ) × Runs cell acquired_by_1 t × (t.stage 2 ≡ exclusive))
    ⊎ ((j : ℕ) × (acquired_by_1.shared.owner ≡ some j)
        × (is_lost (acquired_by_1.stage j) ≡ true)
        × ((t : System ℕ ℕ) → Runs cell acquired_by_1 t → t.stage 2 ≡ outside))
unfolding act stepped
acquire-Runs_example = acquire-Runs cell 10 2 acquired_by_1 (then_act 1 acquire begin refl) refl

-- Thread 1 adds 5 to the map, and thread 2 has a snapshot from before.
abbrev add : ℕ → ℕ → ℕ
add m c = m + c

abbrev or_stay : Option (Threads ℕ ℕ ℕ) → Threads ℕ ℕ ℕ → Threads ℕ ℕ ℕ
or_stay none d = d
or_stay (some e) d = e

after : Move ℕ → ℕ → Threads ℕ ℕ ℕ → Threads ℕ ℕ ℕ
unfolding act
after x i d = or_stay (move cell add x i d) d

abbrev entered : Threads ℕ ℕ ℕ
entered = after read_map 2 (after enter 1 (begin_with cell add 10))

abbrev changed : Threads ℕ ℕ ℕ
changed = after (change_map 5) 1 (after read_map 1 entered)

-- Thread 2 cannot change the map, which it has not locked.
locked_out : move cell add (change_map 1) 2 changed ≡ none
unfolding act after
locked_out = refl

Moves-IsSerial_example :
    (memory cell changed.system.shared ≡ 15)
    × ((i : ℕ) → All (IsPast cell add 10 (5 ∷ [])) (changed.system.guards i))
unfolding act after applied
Moves-IsSerial_example = Moves-IsSerial cell add cell-IsArcSwap 10 changed (
    one_more 1 (change_map 5)
      (one_more 1 read_map (one_more 2 read_map (one_more 1 enter no_moves refl) refl) refl) refl)
