-- ===== src/RemoteMem/Store.antt =====
-- What `process_store` does to the memory, byte by byte, and the round trip with `process_load`.
use vm_memory.Base.{
  ℕ, ◌+◌, ◌-◌, ◌%◌, ◌≡◌, refl, ap, ◌∙◌, ◌&&◌, List, arith, ltb, leb, ◌==◌, if◌then◌else◌, le→leb,
  length, get_or, get_or_ext, ok,
}
use vm_memory.RemoteMem.{
  done, ProcessVm, IsProcessVm, process_write, splice, process_load, process_store,
}
use vm_memory.RemoteMem.Chunk.{locate_served, splice_lem, IsServed}
use vm_memory.RemoteMem.Transfer.{process_write_lem}
use vm_memory.RemoteMem.Load.{process_read_whole, process_load_lem}

module _ {State : Type 0} (vm : ProcessVm State) (byte : State → ℕ → ℕ → ℕ)
    (laws : IsProcessVm vm byte) (pid : ℕ) where
  process_store_served :
      (others : State → State) (addr : ℕ) (val : List ℕ) (s : State) (bs : List ℕ)
      → IsServed (length val) addr
      → vm.readv pid (addr - addr % 8) 8 s ≡ done bs
      → length bs ≡ 8
      → process_store vm pid others addr val s
        ≡ process_write vm pid (addr - addr % 8) (splice (addr % 8) val bs) (others s)
  unfolding process_store
  process_store_served others addr val s bs h e n =
      rw
        (
          locate_served (length val) addr h.below h.inside h.fits,
          process_read_whole vm byte laws pid (addr - addr % 8) s bs e n,
          le→leb _ _ h.fits,
        )
        refl

  -- A store at a served address, whose two system calls transfer the chunk, returns. The value's
  -- bytes are then `val`, the other bytes of its chunk are those that were read before the other
  -- threads ran, and every other byte is as the other threads left it.
  pub process_store_lem :
      (others : State → State) (addr : ℕ) (val : List ℕ) (s : State) (bs : List ℕ)
      → IsServed (length val) addr
      → vm.readv pid (addr - addr % 8) 8 s ≡ done bs
      → length bs ≡ 8
      → ((c : List ℕ) → length c ≡ 8 → (vm.writev pid (addr - addr % 8) c (others s)).0 ≡ done 8)
      → ((process_store vm pid others addr val s).0 ≡ ok tt)
        × ((q a : ℕ)
            → byte (process_store vm pid others addr val s).1 q a ≡ (
                if q == pid && (leb (addr - addr % 8) a && ltb a (addr - addr % 8 + 8))
                then (if leb addr a && ltb a (addr + length val)
                    then get_or val (a - addr) 0
                    else byte s pid a)
                else byte (others s) q a))
  process_store_lem others addr val s bs h e n writes =
      let base = addr - addr % 8 in
      let chunk = splice (addr % 8) val bs in
      let full : length chunk ≡ 8 = (splice_lem (addr % 8) val bs 0 n h.fits).0 in
      let wrote : (process_write vm pid base chunk (others s)).0 ≡ ok tt =
        unfold process_write in rw (writes chunk full, full) refl in
      rw (process_store_served others addr val s bs h e n) (
        wrote,
        λ q a. ground (
          arith,
          full,
          process_write_lem vm byte laws pid base chunk (others s) wrote q a,
          (splice_lem (addr % 8) val bs (a - base) n h.fits).1,
          laws.readv_bytes pid base 8 s bs (a - base) e,
        ),
      )

  -- At an address that does not begin an 8-byte chunk, for a value that ends in the chunk: where the
  -- read of the chunk and every write of 8 bytes to it, both before the store, transfer all 8 bytes,
  -- and so does the read of the chunk after the store, and no other thread runs in between, a load
  -- gives the value that was stored.
  pub process_load-process_store :
      (addr : ℕ) (val : List ℕ) (s : State) (bs cs : List ℕ)
      → IsServed (length val) addr
      → vm.readv pid (addr - addr % 8) 8 s ≡ done bs
      → length bs ≡ 8
      → ((c : List ℕ) → length c ≡ 8 → (vm.writev pid (addr - addr % 8) c s).0 ≡ done 8)
      → vm.readv pid (addr - addr % 8) 8 (process_store vm pid (λ t. t) addr val s).1 ≡ done cs
      → length cs ≡ 8
      → process_load vm pid (length val) addr (process_store vm pid (λ t. t) addr val s).1 ≡ ok val
  process_load-process_store addr val s bs cs h e n writes e' n' =
      let after = (process_store vm pid (λ t. t) addr val s).1 in
      let (v, loads, len, bytes) =
        process_load_lem vm byte laws pid (length val) addr after cs h e' n' in
      let stored = process_store_lem (λ t. t) addr val s bs h e n writes in
      loads
      ∙ ap ok
          (get_or_ext 0 v val len λ i p. ground (arith, bytes i, stored.1 pid (addr + i), h.fits))
