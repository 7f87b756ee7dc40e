-- ===== src/GuestMmap/Objects.antt =====
-- `write_obj` and `read_obj` of a guest memory: an object goes to the process and comes back.
use vm_memory.Base.{
  ℕ, ◌+◌, ◌-◌, ◌<◌, ◌≡◌, ap, ◌∙◌, ◌&&◌, some, List, arith, ltb, leb, ◌==◌, if◌then◌else◌, length,
  get_or, get_or_ext, word, ok,
}
use vm_memory.Region.{Error}
use vm_memory.RemoteMem.{done, ProcessVm, IsProcessVm}
use vm_memory.Mmap.{GuestRegionMmap, GuestMemoryMmap, region_mmap, find_region, memory_mmap}
use vm_memory.Mmap.Layout.{IsWellFormed}
use vm_memory.Mmap.Find.{memory_mmap-IsGuestMemory}
use vm_memory.GuestMmap.{
  host_of, IsMapped, guest_write, guest_read, guest_write_lem, guest_read_lem,
}
use vm_memory.GuestBytes.Whole.{write_slice_all, read_slice_all}
use vm_memory.ByteValued.{Container, write_obj, read_obj}
use vm_memory.GuestBytes
use vm_memory.RegionBytes

module _ {State : Type 0} (vm : ProcessVm State) (others : State → State)
    (m : GuestMemoryMmap) where
  -- `Bytes<GuestAddress>` for the memory.
  abbrev pub guest_container : Container ℕ Error State
  guest_container = record {
    write_slice =
        GuestBytes.write_slice region_mmap memory_mmap (RegionBytes.bytes_mmap vm others) m;
    read_slice = GuestBytes.read_slice region_mmap memory_mmap (RegionBytes.bytes_mmap vm others) m;
  }

module _ {State : Type 0} (vm : ProcessVm State) (byte : State → ℕ → ℕ → ℕ)
    (laws : IsProcessVm vm byte) (others : State → State) (m : GuestMemoryMmap)
    (well : IsWellFormed m) (addr : ℕ) (val initial : List ℕ) (s : State) (r : GuestRegionMmap)
    (at : find_region m addr ≡ some r) (mapped : IsMapped r) (short : length val < word)
    (some_bytes : 0 < length val) (sized : length initial ≡ length val) where
  -- In a well-formed memory, for an object that is not empty and whose length fits u64, at an address of
  -- a region whose mapping does not wrap, and a default value of the same length: where the system
  -- calls transfer the whole object, `write_obj` succeeds, and `read_obj` at the same
  -- address in the state after it gives the object.
  read_obj-write_obj :
      (bs : List ℕ)
      → (vm.writev r.pid (host_of r addr) val s).0 ≡ done (length val)
      → vm.readv r.pid (host_of r addr) (length initial) (guest_write vm others m val addr s).1
        ≡ done bs
      → length bs ≡ length initial
      → (write_obj (guest_container vm others m) val addr s
          ≡ (ok tt, (guest_write vm others m val addr s).1))
        × (read_obj
              (guest_container vm others m)
              initial
              addr
              (guest_write vm others m val addr s).1
            ≡ ok val)
  unfolding guest_write guest_read
  read_obj-write_obj bs put got n =
      let s' = (guest_write vm others m val addr s).1 in
      let (done_all, stored) =
        guest_write_lem vm byte laws others m well addr val s r at mapped short some_bytes put in
      let (read_all, long, loaded) =
        guest_read_lem vm byte laws others m well addr initial s' r at mapped (omega arith)
          (omega arith) bs got n in
      let w =
        write_slice_all region_mmap memory_mmap (RegionBytes.bytes_mmap vm others) m
          (memory_mmap-IsGuestMemory m well) addr val s done_all in
      let g =
        read_slice_all region_mmap memory_mmap (RegionBytes.bytes_mmap vm others) m
          (memory_mmap-IsGuestMemory m well) addr initial s' read_all in
      let same : (guest_read vm others m initial addr s').1 ≡ val =
        get_or_ext 0 _ _ (long ∙ sized) (λ i p.
          loaded i (omega (arith, long))
          ∙ stored r.pid (host_of r addr + i)
          ∙ at_offset i (omega (arith, long))) in
      (w, rw g (ap ok same))
    where
      at_offset :
          (i : ℕ)
          → i < length val
          → (if r.pid == r.pid
                && (leb (host_of r addr) (host_of r addr + i)
                    && ltb (host_of r addr + i) (host_of r addr + length val))
              then get_or val (host_of r addr + i - host_of r addr) 0
              else byte s r.pid (host_of r addr + i))
            ≡ get_or val i 0
      at_offset i h = ground arith
