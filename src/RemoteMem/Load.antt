-- ===== src/RemoteMem/Load.antt =====
-- What `process_load` returns, and the addresses at which it and `process_store` panic.
use mathlib.Core.List.{append-nil}
use vm_memory.Base.{
  ℕ, ◌+◌, ◌-◌, ◌%◌, ◌<◌, ◌≡◌, refl, ◌⊎◌, List, arith, le→leb, length, get_or, take, drop,
  length-take, length-drop, get_or-take, get_or-drop, word, panic, ok,
}
use vm_memory.RemoteMem.{
  done, ProcessVm, IsProcessVm, process_read_bytes, process_read, process_load, process_store,
}
use vm_memory.RemoteMem.Chunk.{locate_served, locate_unserved, IsServed}

module _ {State : Type 0} (vm : ProcessVm State) (byte : State → ℕ → ℕ → ℕ)
    (laws : IsProcessVm vm byte) (pid : ℕ) where
  pub process_read_whole :
      (addr : ℕ) (s : State) (bs : List ℕ)
      → vm.readv pid addr 8 s ≡ done bs
      → length bs ≡ 8
      → process_read vm pid 8 addr s ≡ ok bs
  unfolding process_read process_read_bytes
  process_read_whole addr s bs e n = rw e (rw (n, append-nil))

  -- At an address that does not begin an 8-byte chunk, of a value that ends in the chunk, a load
  -- whose system call transfers the chunk returns, and gives the bytes of the memory at `addr`.
  pub process_load_lem :
      (len addr : ℕ) (s : State) (bs : List ℕ)
      → IsServed len addr
      → vm.readv pid (addr - addr % 8) 8 s ≡ done bs
      → length bs ≡ 8
      → (v : List ℕ) × (process_load vm pid len addr s ≡ ok v)
        × (length v ≡ len)
        × ((i : ℕ) → i < len → get_or v i 0 ≡ byte s pid (addr + i))
  unfolding process_load
  process_load_lem len addr s bs h e n = (
    take len (drop (addr % 8) bs),
    rw
        (
          locate_served len addr h.below h.inside h.fits,
          process_read_whole (addr - addr % 8) s bs e n,
          le→leb _ _ h.fits,
        )
        refl,
    omega (arith, h.fits, length-take len (drop (addr % 8) bs), length-drop (addr % 8) bs),
    λ i p. ground (
      arith,
      get_or-take len (drop (addr % 8) bs) i 0,
      get_or-drop (addr % 8) bs i 0,
      laws.readv_bytes pid (addr - addr % 8) 8 s bs (addr % 8 + i) e,
      h.fits,
    ),
  )

  -- A value that begins at a multiple of 8 above 0, or that extends over the next multiple, cannot
  -- be accessed: load and store panic, and the store leaves the memory as it was.
  pub unserved-panic :
      (addr : ℕ) (s : State) (others : State → State) (val : List ℕ)
      → addr + 8 < word
      → 0 < addr
      → 0 < length val
      → (addr % 8 ≡ 0) ⊎ (8 < addr % 8 + length val)
      → (process_load vm pid (length val) addr s ≡ panic)
        × (process_store vm pid others addr val s ≡ (panic, s))
  unfolding process_load process_store
  unserved-panic addr s others val h p q c =
      rw (locate_unserved (length val) addr h p q c) (refl, refl)
