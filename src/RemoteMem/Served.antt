-- ===== src/RemoteMem/Served.antt =====
-- Loads and stores at a served address come back, whatever the system calls give.
use vm_memory.Base.{
  ℕ, ◌-◌, ◌%◌, inl, inr, List, ◌==◌, le→leb, Bool-cases, length, take, drop, replicate, Outcome,
  panic, stuck, err, ok, ◌>>=◌, Returns,
}
use vm_memory.RemoteMem.{
  ProcessVm, Error, process_read_bytes, process_read, process_write, splice, process_load,
  merge_chunk, write_chunk, process_store,
}
use vm_memory.RemoteMem.Chunk.{locate_served, IsServed}
use vm_memory.RemoteMem.Transfer.{Sys-cases}

module _ {State : Type 0} (vm : ProcessVm State) (pid : ℕ) where
  process_read-Returns : (len addr : ℕ) (s : State) → Returns (process_read vm pid len addr s)
  unfolding process_read process_read_bytes
  process_read-Returns len addr s =
      elim (Sys-cases (vm.readv pid addr (length {A = ℕ} (replicate {A = ℕ} len 0)) s)) [
        | inr (e, call) ↦ rw call tt
        | inl (bs, call) ↦ rw call (elim (Bool-cases (length bs == len)) [
          | inl whole ↦ rw whole tt
          | inr part ↦ rw part tt
        ])
      ]

  process_write-Returns :
      (addr : ℕ) (val : List ℕ) (s : State) → Returns (process_write vm pid addr val s).0
  unfolding process_write
  process_write-Returns addr val s = elim (Sys-cases (vm.writev pid addr val s).0) [
    | inr (e, call) ↦ rw call tt
    | inl (n, call) ↦
        rw call
          (elim (Bool-cases (n == length val)) [ inl whole ↦ rw whole tt | inr part ↦ rw part tt ])
  ]

  bound-Returns :
      {E A B : Type 0} (o : Outcome E A) (next : A → Outcome E B)
      → Returns o
      → ((a : A) → Returns (next a))
      → Returns (o >>= next)
  bound-Returns (ok a) next h k = k a
  bound-Returns (err e) next h k = tt
  bound-Returns panic next h k = h
  bound-Returns stuck next h k = h

  pub process_load-Returns :
      (len addr : ℕ) (s : State) → IsServed len addr → Returns (process_load vm pid len addr s)
  unfolding process_load
  process_load-Returns len addr s h =
      rw (locate_served len addr h.below h.inside h.fits, le→leb _ _ h.fits)
        (bound-Returns (process_read vm pid 8 (addr - addr % 8) s)
          (λ bytes. ok (take len (drop (addr % 8) bytes)))
          (process_read-Returns 8 (addr - addr % 8) s) (λ bytes. tt))

  chunk-Returns :
      (others : State → State) (s : State) (o : Outcome Error (ℕ × List ℕ))
      → Returns o
      → Returns (write_chunk vm pid others s o).0
  chunk-Returns others s (ok (aligned, chunk)) h = process_write-Returns aligned chunk (others s)
  chunk-Returns others s (err e) h = tt
  chunk-Returns others s panic h = h
  chunk-Returns others s stuck h = h

  pub process_store-Returns :
      (others : State → State) (addr : ℕ) (val : List ℕ) (s : State)
      → IsServed (length val) addr
      → Returns (process_store vm pid others addr val s).0
  unfolding process_store merge_chunk
  process_store-Returns others addr val s h =
      rw (locate_served (length val) addr h.below h.inside h.fits, le→leb _ _ h.fits)
        (chunk-Returns others s
          (process_read vm pid 8 (addr - addr % 8) s >>= λ bytes.
            ok (addr - addr % 8, splice (addr % 8) val bytes))
          (bound-Returns (process_read vm pid 8 (addr - addr % 8) s)
            (λ bytes. ok (addr - addr % 8, splice (addr % 8) val bytes))
            (process_read-Returns 8 (addr - addr % 8) s) (λ bytes. tt)))
