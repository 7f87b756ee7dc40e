-- ===== src/AtomicMemory.antt =====
-- src/atomic.rs: `GuestMemoryAtomic`, whose map is replaced while other threads read it, and its
-- guards. `ArcSwap` is the crate's type of that name; an `Arc` or a guard of one is the map that it
-- points to. The mutex is that of the standard library: a thread waits while another holds it, and a
-- thread that locks it again while it holds it waits for itself, or panics.
pub mod Invariant
pub mod Progress
pub mod History
mod Steps
pub mod Sample
pub mod Serial
mod Tests
use vm_memory.Base.{
  ℕ, ◌≡◌, Bool, true, false, ◌||◌, Option, none, some, List, [], ◌∷◌, ◌==◌, if◌then◌else◌,
}

-- The cell behind `ArcSwap<M>`.
pub record ArcSwap (A M : Type 0) : Type 0 where
  pub new : M → A
  pub load : A → M
  pub store : M → A → A

-- A cell holds what it was made with or what was last stored.
pub record IsArcSwap {A M : Type 0} (sw : ArcSwap A M) : Type 0 where
  pub load-new : (m : M) → sw.load (sw.new m) ≡ m
  pub load-store : (m : M) (a : A) → sw.load (sw.store m a) ≡ m

-- `inner`: the cell and the mutex, with the thread that holds it.
pub record GuestMemoryAtomic (A : Type 0) : Type 0 where
  pub swap : A
  pub owner : Option ℕ
  pub poisoned : Bool

-- `LockResult`: both arms carry the guard.
pub data LockResult : Type 0 where
  guarded poison_error : LockResult

module _ {A M : Type 0} (sw : ArcSwap A M) where
  abbrev pub from : M → GuestMemoryAtomic A
  from new_map = record { swap = sw.new new_map; owner = none; poisoned = false }

  -- The map in the `GuestMemoryLoadGuard`.
  abbrev pub memory : GuestMemoryAtomic A → M
  memory g = sw.load g.swap

  -- The first half of `GuestMemoryExclusiveGuard::replace`; the guard is dropped after it.
  abbrev pub publish : M → GuestMemoryAtomic A → GuestMemoryAtomic A
  publish new_map g = record g { swap = sw.store new_map g.swap }

abbrev pub lock_result : Bool → LockResult
lock_result true = poison_error
lock_result false = guarded

abbrev pub lock_owned :
    {A : Type 0} → ℕ → GuestMemoryAtomic A → Option ℕ → Option (LockResult × GuestMemoryAtomic A)
lock_owned i g none = some (lock_result g.poisoned, record g { owner = some i })
lock_owned i g (some j) = none

-- `none` while the thread has to wait.
abbrev pub lock : {A : Type 0} → ℕ → GuestMemoryAtomic A → Option (LockResult × GuestMemoryAtomic A)
lock i g = lock_owned i g g.owner

-- The drop of the mutex's guard, which poisons the mutex where the thread panics.
abbrev pub unlock : {A : Type 0} → Bool → GuestMemoryAtomic A → GuestMemoryAtomic A
unlock panicking g = record g { owner = none; poisoned = g.poisoned || panicking }

-- Where a thread stands: outside, with an exclusive guard, inside `replace` with the new map stored,
-- with a guard that was leaked, or waiting for itself.
pub data Stage : Type 0 where
  outside exclusive replaced leaked blocked : Stage

-- What a thread may do next: call `memory`, clone or drop a load guard, lock, replace the map, and
-- drop the exclusive guard, at the end of `replace`, instead of it, or in a panic, or leak it.
pub data Action (M : Type 0) : Type 0 where
  load_memory clone_guard drop_guard acquire release unwind leak : Action M
  replace : M → Action M

-- The object, and of each thread where it stands and its load guards, the latest one first.
pub record System (A M : Type 0) : Type 0 where
  pub shared : GuestMemoryAtomic A
  pub stage : ℕ → Stage
  pub guards : ℕ → List M

abbrev pub update {ℓ} : {B : Type ℓ} → (ℕ → B) → ℕ → B → ℕ → B
update f i b j = if i == j then b else f j

module _ {A M : Type 0} (sw : ArcSwap A M) where
  abbrev pub start : M → System A M
  start new_map = record { shared = from sw new_map; stage = λ i. outside; guards = λ i. [] }

  abbrev pub cloned : ℕ → System A M → List M → Option (System A M)
  cloned i s [] = none
  cloned i s (g ∷ gs) = some (record s { guards = update s.guards i (g ∷ g ∷ gs) })

  abbrev pub dropped : ℕ → System A M → List M → Option (System A M)
  dropped i s [] = none
  dropped i s (g ∷ gs) = some (record s { guards = update s.guards i gs })

  abbrev pub acquired :
      ℕ → System A M → Option (LockResult × GuestMemoryAtomic A) → Option (System A M)
  acquired i s none = none
  acquired i s (some (r, g)) = some (record s { shared = g; stage = update s.stage i exclusive })

  abbrev pub left : ℕ → Bool → System A M → System A M
  left i panicking s = record s {
    shared = unlock panicking s.shared;
    stage = update s.stage i outside;
  }

  -- A move of thread `i`, which stands at the given stage; `none` where it cannot make it now.
  -- Where the thread holds the mutex itself, `lock` blocks it for good; a panic in `lock` is `unwind`.
  pub dispatch : Stage → Action M → ℕ → System A M → Option (System A M)
  dispatch blocked a i s = none
  dispatch p load_memory i s =
      some (record s { guards = update s.guards i (memory sw s.shared ∷ s.guards i) })
  dispatch p clone_guard i s = cloned i s (s.guards i)
  dispatch p drop_guard i s = dropped i s (s.guards i)
  dispatch outside acquire i s = acquired i s (lock i s.shared)
  dispatch exclusive (replace new_map) i s =
      some (record s { shared = publish sw new_map s.shared; stage = update s.stage i replaced })
  dispatch exclusive release i s = some (left i false s)
  dispatch replaced release i s = some (left i false s)
  dispatch exclusive unwind i s = some (left i true s)
  dispatch exclusive acquire i s = some (record s { stage = update s.stage i blocked })
  dispatch leaked acquire i s = some (record s { stage = update s.stage i blocked })
  dispatch exclusive leak i s = some (record s { stage = update s.stage i leaked })
  dispatch _ _ i s = none

  unfoldable pub act : Action M → ℕ → System A M → Option (System A M)
  unfolding dispatch
  act a i s = dispatch (s.stage i) a i s

-- The states that any threads can lead to, in any order.
pub data Reach {A M : Type 0} (sw : ArcSwap A M) (new_map : M) : System A M → Type 0 where
  begin : Reach sw new_map (start sw new_map)
  then_act :
      {s t : System A M} (i : ℕ) (a : Action M)
      → Reach sw new_map s
      → act sw a i s ≡ some t
      → Reach sw new_map t
