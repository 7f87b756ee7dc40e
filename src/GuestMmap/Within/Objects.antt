-- ===== src/GuestMmap/Within/Objects.antt =====
-- `write_obj` and `read_obj` of a `GuestMemoryMmap` inside one region.
use vm_memory.Base.{
  ℕ, ◌+◌, ◌-◌, ◌≤◌, ◌<◌, ◌≡◌, ◌∙◌, true, some, List, [], arith, ltb, lt→ltb, length, get_or,
  get_or_ext, word, Outcome, panic, stuck, err, ok, map_ok,
}
use vm_memory.Region.{Error, partial_buffer, remote_mem_error}
use vm_memory.RemoteMem.{done, failed, ProcessVm, IsProcessVm, rw_failed}
use vm_memory.ByteValued.{write_obj, read_obj}
use vm_memory.Mmap.{GuestRegionMmap, GuestMemoryMmap, find_region}
use vm_memory.Mmap.Layout.{IsWellFormed}
use vm_memory.GuestMmap.{host_of, IsMapped, guest_write, guest_read}
use vm_memory.GuestMmap.Objects.{guest_container}
use vm_memory.GuestMmap.Within.Write.{Put, guest_write-Writes}
use vm_memory.GuestMmap.Within.Read.{Got, guest_read-Reads}
use vm_memory.GuestMmap.Within.Slices.{
  SliceWritten, slice_written, whole_written, SliceRead, slice_read,
}
use vm_memory.GuestBytes

module _ {State : Type 0} (vm : ProcessVm State) (byte : State → ℕ → ℕ → ℕ)
    (laws : IsProcessVm vm byte) (others : State → State) (m : GuestMemoryMmap)
    (well : IsWellFormed m) (addr : ℕ) (val : List ℕ) (s : State) (r : GuestRegionMmap)
    (at : find_region m addr ≡ some r) (mapped : IsMapped r) (short : length val < word)
    (within : addr + length val ≤ r.guest_base + r.mapping.size) where
  abbrev pub stored : Outcome Error (Unit {0}) × State
  stored = write_obj (guest_container vm others m) val addr s

  -- In a well-formed memory, for an object that fits between `addr` and the end of its region, whose
  -- host addresses do not wrap: `write_obj` returns, however little each system call transfers. A
  -- front of the object then stands at consecutive addresses of the process, from the host address of
  -- `addr` on, and no other byte of any process has changed. Success means that this is the whole
  -- object; a partial buffer gives the length of the front, behind which a call wrote nothing; any
  -- other error is that of a call behind it.
  pub write_obj-SliceWritten :
      (n : ℕ) × Put vm byte val s r.pid (host_of r addr) n stored.1
      × SliceWritten vm byte val s r.pid (host_of r addr) stored.0 n
  unfolding guest_write GuestBytes.write_slice
  write_obj-SliceWritten =
      let (n, put, ends) =
        guest_write-Writes vm byte laws others m well addr val s r at mapped short within in
      (
        n,
        put,
        slice_written vm byte val s r.pid (host_of r addr) (guest_write vm others m val addr s).0 n
            ends put.0,
      )

  module _ (initial : List ℕ) (sized : length initial ≡ length val) where
    -- The object, or why it is not read: a call for the rest of it reads nothing, or fails.
    abbrev pub ReadsBack : Outcome Error (List ℕ) → Type 0
    ReadsBack (ok v) = v ≡ val
    ReadsBack (err (partial_buffer expected completed)) =
        (expected ≡ length val)
        × (completed < length val)
        × (vm.readv r.pid (host_of r addr + completed) (length val - completed) stored.1 ≡ done [])
    ReadsBack (err (remote_mem_error (rw_failed e))) =
        (n : ℕ) × (n ≤ length val)
        × (vm.readv r.pid (host_of r addr + n) (length val - n) stored.1 ≡ failed e)
    ReadsBack (err e) = ⊥
    ReadsBack panic = ⊥
    ReadsBack stuck = ⊥

    -- What has been written whole is there byte by byte.
    whole_there :
        (n : ℕ)
        → Put vm byte val s r.pid (host_of r addr) n stored.1
        → SliceWritten vm byte val s r.pid (host_of r addr) stored.0 n
        → stored.0 ≡ ok tt
        → (i : ℕ) → i < length val
        → byte stored.1 r.pid (host_of r addr + i) ≡ get_or val i 0
    whole_there n put written all i p =
        let whole : n ≡ length val =
          whole_written vm byte val s r.pid (host_of r addr) stored.0 n written all in
        put.1 r.pid (host_of r addr + i) ∙ ground arith

    object_back :
        (o : Outcome Error (Unit {0})) (out : List ℕ) (n : ℕ)
        → Got vm byte initial stored.1 r.pid (host_of r addr) n out
        → SliceRead vm byte initial stored.1 r.pid (host_of r addr) o n
        → ((i : ℕ) → i < length val → byte stored.1 r.pid (host_of r addr + i) ≡ get_or val i 0)
        → ReadsBack (map_ok (λ u. out) o)
    object_back (ok u) out n (le, long, here) whole there =
        get_or_ext 0 out val (long ∙ sized) (λ i p.
          let front : ltb i n ≡ true = lt→ltb i n (omega (arith, p, long, whole)) in
          here i ∙ rw front (there i (omega (arith, p, long, sized))))
    object_back (err (partial_buffer expected completed)) out n got_here (e, c, less, call) there =
        rw (c, ← sized) (e, less, call)
    object_back (err (remote_mem_error (rw_failed x))) out n got_here call there =
        rw (← sized) (n, got_here.0, call)
    object_back (err x) out n got_here h there = absurd h
    object_back panic out n got_here h there = h
    object_back stuck out n got_here h there = h

    -- In a well-formed memory, for an object that fits between `addr` and the end of its region, whose
    -- host addresses do not wrap, and a default value of its length: where `write_obj` succeeds,
    -- `read_obj` at the same address in the state after it returns the object, however little each
    -- system call transfers; or it fails, where a call for the rest of the object reads nothing or
    -- fails.
    pub read_obj-ReadsBack :
        stored.0 ≡ ok tt → ReadsBack (read_obj (guest_container vm others m) initial addr stored.1)
    unfolding guest_read GuestBytes.read_slice
    read_obj-ReadsBack all =
        let (n, put, written) = write_obj-SliceWritten in
        let (k, got_here, ends) =
          guest_read-Reads vm byte laws others m well addr initial stored.1 r at mapped
            (omega arith) (omega arith) in
        let out = guest_read vm others m initial addr stored.1 in
        object_back (GuestBytes.all_or_partial (length initial) out.0) out.1 k got_here
          (slice_read vm byte initial stored.1 r.pid (host_of r addr) out.0 k ends got_here.0)
          (whole_there n put written all)
