-- ===== src/AtomicMmap.antt =====
-- src/atomic.rs with src/mmap.rs: a `GuestMemoryMmap` behind a `GuestMemoryAtomic`, which threads
-- change by `insert_region` and `remove_region` of the map that they have loaded under the lock.
mod Tests
use vm_memory.Base.{ℕ, ◌≡◌, refl, ◌∙◌, List, [], ◌∷◌, ◌++◌, All}
use vm_memory.AtomicMemory.{ArcSwap, IsArcSwap, memory}
use vm_memory.AtomicMemory.History.{Threads, applied, Moves, IsPast}
use vm_memory.AtomicMemory.Serial.{Moves-IsSerial}
use vm_memory.Mmap.{GuestMemoryMmap, find_region}
use vm_memory.Mmap.Layout.{IsWellFormed}
use vm_memory.Mmap.History.{Change, change, run, AllChange, IsProper, run-AllChange}

run-applied :
    {A : Type 0} (sw : ArcSwap A GuestMemoryMmap) (cs : List Change) (m : GuestMemoryMmap)
    → applied sw change cs m ≡ run cs m
unfolding applied run
run-applied sw [] m = refl
run-applied sw (c ∷ cs) m = run-applied sw cs (change m c)

All-prefix : (past later : List Change) → All IsProper (past ++ later) → All IsProper past
All-prefix [] later p = tt
All-prefix (c ∷ past) later p = (p.0, All-prefix past later p.1)

-- The map is well formed, and its lookup is that of the first one with the changes made.
abbrev pub IsChanged : GuestMemoryMmap → List Change → GuestMemoryMmap → Type 0
IsChanged first cs m = IsWellFormed m × AllChange cs (find_region first) (find_region m)

-- The map as it was after some of the changes.
abbrev pub IsSnapshot : GuestMemoryMmap → List Change → GuestMemoryMmap → Type 0
IsSnapshot first cs m = (past later : List Change) × (past ++ later ≡ cs) × IsChanged first past m

module _ {A : Type 0} (sw : ArcSwap A GuestMemoryMmap) where
  applied-IsChanged :
      (first m : GuestMemoryMmap) (cs : List Change)
      → IsWellFormed first
      → All IsProper cs
      → m ≡ applied sw change cs first
      → IsChanged first cs m
  applied-IsChanged first m cs well proper e =
      rw (e ∙ run-applied sw cs first) (run-AllChange cs first well proper)

  snapshots_changed :
      (first : GuestMemoryMmap) (cs : List Change) (gs : List GuestMemoryMmap)
      → IsWellFormed first
      → All IsProper cs
      → All (IsPast sw change first cs) gs
      → All (IsSnapshot first cs) gs
  snapshots_changed first cs [] well proper q = tt
  snapshots_changed first cs (g ∷ gs) well proper ((past, later, whole_log, e), q) =
      let of_past = All-prefix past later (rw whole_log proper) in
      (
        (past, later, whole_log, applied-IsChanged first g past well of_past e),
        snapshots_changed first cs gs well proper q,
      )

  -- Over a cell that has what was last stored in it, from a well-formed memory, and where every region put in has a size above 0 and an end below
  -- 2 ^ 64:
  -- whatever threads do in any order, the memory is well formed and its lookup is that of the first
  -- one with the insertions and removals of all threads made one after another, and so it is for the
  -- memory in every load guard of every thread, with some first ones of them.
  pub Moves-IsChanged :
      IsArcSwap sw
      → (first : GuestMemoryMmap) (d : Threads A GuestMemoryMmap Change) → IsWellFormed first
      → Moves sw change first d
      → All IsProper d.history
      → IsChanged first d.history (memory sw d.system.shared)
        × ((i : ℕ) → All (IsSnapshot first d.history) (d.system.guards i))
  Moves-IsChanged laws first d well r proper =
      let (current, snapshots) = Moves-IsSerial sw change laws first d r in
      (
        applied-IsChanged first (memory sw d.system.shared) d.history well proper current,
        λ i. snapshots_changed first d.history (d.system.guards i) well proper (snapshots i),
      )
