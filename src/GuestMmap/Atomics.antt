-- ===== src/GuestMmap/Atomics.antt =====
-- `store` and `load` of a `GuestMemoryMmap` for the types with `AtomicAccess`.
use vm_memory.Base.{
  ℕ, ◌+◌, ◌-◌, ◌%◌, ◌<◌, ◌≡◌, refl, ◌∙◌, ◌⊎◌, inl, inr, ◌&&◌, some, List, arith, ltb, leb, ltb→lt,
  Bool-cases, length, word, Outcome, panic, stuck, err, ok, map_err, Returns,
}
use vm_memory.Region.{Error, remote_mem_error}
use vm_memory.RemoteMem.{ProcessVm, IsProcessVm, process_load, process_store}
use vm_memory.RemoteMem.Chunk.{IsServed}
use vm_memory.RemoteMem.Load.{unserved-panic}
use vm_memory.RemoteMem.Served.{process_load-Returns, process_store-Returns}
use vm_memory.GuestBytes.Whole.{atomic_resolved}
use vm_memory.Mmap.{GuestRegionMmap, GuestMemoryMmap, region_mmap, find_region, memory_mmap}
use vm_memory.Mmap.Layout.{IsWellFormed}
use vm_memory.Mmap.Find.{memory_mmap-IsGuestMemory}
use vm_memory.RegionBytes.Access.{store_in_range, load_in_range}
use vm_memory.GuestMmap.{host_of}
use vm_memory.AtomicTypes.{Integer, size_of_integer}
use vm_memory.AtomicTypes.Layout.{size_of_integer_pos}
use vm_memory.GuestBytes
use vm_memory.RegionBytes

mapped-Returns : {E F A : Type 0} (f : E → F) (o : Outcome E A) → Returns o → Returns (map_err f o)
mapped-Returns f (ok a) h = tt
mapped-Returns f (err e) h = tt
mapped-Returns f panic h = h
mapped-Returns f stuck h = h

module _ {State : Type 0} (vm : ProcessVm State) (others : State → State)
    (m : GuestMemoryMmap) where
  abbrev pub guest_store : List ℕ → ℕ → State → Outcome Error (Unit {0}) × State
  guest_store = GuestBytes.store region_mmap memory_mmap (RegionBytes.bytes_mmap vm others) m

  abbrev pub guest_load : ℕ → ℕ → State → Outcome Error (List ℕ)
  guest_load = GuestBytes.load region_mmap memory_mmap (RegionBytes.bytes_mmap vm others) m

module _ {State : Type 0} (vm : ProcessVm State) (byte : State → ℕ → ℕ → ℕ)
    (laws : IsProcessVm vm byte) (others : State → State) (m : GuestMemoryMmap)
    (well : IsWellFormed m) (addr : ℕ) (s : State) (r : GuestRegionMmap)
    (at : find_region m addr ≡ some r) (above : 0 < r.mapping.addr)
    (below : r.mapping.addr + r.mapping.size + 8 < word) (t : Integer) (val : List ℕ)
    (sized : length val ≡ size_of_integer t) where
  offset_inside : addr - r.guest_base < r.mapping.size
  offset_inside =
      let inside = (memory_mmap-IsGuestMemory m well).found_in addr r at in omega (arith, inside)

  host : RegionBytes.host_addr r (addr - r.guest_base) ≡ host_of r addr
  host = omega (arith, offset_inside)

  integer_store : guest_store vm others m val addr s ≡ (
      let (res, s') = process_store vm r.pid others (host_of r addr) val s in
      (map_err remote_mem_error res, s'))
  integer_store =
      (atomic_resolved region_mmap memory_mmap (RegionBytes.bytes_mmap vm others) m
        (memory_mmap-IsGuestMemory m well) addr val (length val) s r at).0
      ∙ store_in_range vm r (addr - r.guest_base) s offset_inside others val
      ∙ rw host refl

  integer_load :
      guest_load vm others m (length val) addr s
      ≡ map_err remote_mem_error (process_load vm r.pid (length val) (host_of r addr) s)
  integer_load =
      (atomic_resolved region_mmap memory_mmap (RegionBytes.bytes_mmap vm others) m
        (memory_mmap-IsGuestMemory m well) addr val (length val) s r at).1
      ∙ load_in_range vm r (addr - r.guest_base) s offset_inside (length val)
      ∙ rw host refl

  below_word : host_of r addr + 8 < word
  below_word = omega (arith, offset_inside)

  some_bytes : 0 < length val
  some_bytes = omega (arith, size_of_integer_pos t)

  served-Returns :
      IsServed (length val) (host_of r addr)
      → Returns (guest_store vm others m val addr s).0
        × Returns (guest_load vm others m (length val) addr s)
  served-Returns h = (
    rw integer_store (
        mapped-Returns remote_mem_error (process_store vm r.pid others (host_of r addr) val s).0
          (process_store-Returns vm r.pid others (host_of r addr) val s h)),
    rw integer_load (
        mapped-Returns remote_mem_error (process_load vm r.pid (length val) (host_of r addr) s)
          (process_load-Returns vm r.pid (length val) (host_of r addr) s h)),
  )

  unserved_accesses :
      (host_of r addr % 8 ≡ 0) ⊎ (8 < host_of r addr % 8 + length val)
      → (guest_store vm others m val addr s ≡ (panic, s))
        × (guest_load vm others m (length val) addr s ≡ panic)
  unserved_accesses c =
      let host_above : 0 < host_of r addr = omega arith in
      let both =
        unserved-panic vm byte laws r.pid (host_of r addr) s others val below_word host_above
          some_bytes c in
      (integer_store ∙ rw (both.1) refl, integer_load ∙ rw (both.0) refl)

  -- In a well-formed memory, at an address of a region whose mapping begins above 0 and ends at least
  -- 9 below 2 ^ 64, an atomic `store` and an atomic `load` of a primitive integer come back, whatever
  -- the system calls give, where the host address is no multiple of 8 and the integer ends in the
  -- same 8 bytes; everywhere else both panic, and the store leaves the memory as it was. An
  -- integer that is not shorter than 8 bytes has no address at which they come back.
  pub atomic_access_lem :
      ((IsServed (size_of_integer t) (host_of r addr)
          × Returns (guest_store vm others m val addr s).0
          × Returns (guest_load vm others m (size_of_integer t) addr s))
        ⊎ ((¬ IsServed (size_of_integer t) (host_of r addr))
            × (guest_store vm others m val addr s ≡ (panic, s))
            × (guest_load vm others m (size_of_integer t) addr s ≡ panic)))
      × ((size_of_integer t < 8)
          ⊎ ((guest_store vm others m val addr s ≡ (panic, s))
              × (guest_load vm others m (size_of_integer t) addr s ≡ panic)))
  atomic_access_lem = rw (← sized) (
    elim (Bool-cases (ltb 0 (host_of r addr % 8) && leb (host_of r addr % 8 + length val) 8)) [
      | inl served ↦
          let chunk : IsServed (length val) (host_of r addr) = record {
            below = below_word;
            inside = ground arith;
            fits = ground arith;
          } in
          let both = served-Returns chunk in inl (chunk, both.0, both.1)
      | inr other ↦
          let both = unserved_accesses (ground arith) in
          inr (λ chunk. absurd (ground (arith, chunk.inside, chunk.fits)), both.0, both.1)
    ],
    elim (Bool-cases (ltb (length val) 8)) [
      | inl narrow ↦ inl (ltb→lt _ _ narrow)
      | inr wide ↦ inr (unserved_accesses (ground arith))
    ],
  )
