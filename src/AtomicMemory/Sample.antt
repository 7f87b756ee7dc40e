-- ===== src/AtomicMemory/Sample.antt =====
-- A cell that is its content.
use vm_memory.Base.{refl}
use vm_memory.AtomicMemory.{ArcSwap, IsArcSwap}

module _ {M : Type 0} where
  abbrev pub cell : ArcSwap M M
  cell = record { new = λ m. m; load = λ a. a; store = λ m a. m }

  pub cell-IsArcSwap : IsArcSwap cell
  cell-IsArcSwap = record { load-new = λ m. refl; load-store = λ m a. refl }
