-- ===== src/RegionBytes/Access.antt =====
-- The byte accesses of a region: what they refuse, and what they move.
use vm_memory.Base.{
  ℕ, ◌≤◌, ◌<◌, ◌≡◌, refl, ◌∙◌, false, List, arith, leb, le→leb, length, err, ok, map_err,
}
use vm_memory.Region.{invalid_guest_address, remote_mem_error}
use vm_memory.RemoteMem.{
  done, ProcessVm, process_read_bytes, process_write_bytes, process_load, process_store,
}
use vm_memory.RemoteMem.Transfer.{process_write_bytes_done, process_read_bytes_done}
use vm_memory.Mmap.{GuestRegionMmap}
use vm_memory.RegionBytes.{host_addr, write, read, write_slice, read_slice, store, load}

-- An offset past the end of the region is refused by every access, before any system call: the
-- memory and the buffer are left alone.
out_of_range :
    {State : Type 0} (vm : ProcessVm State) (others : State → State) (r : GuestRegionMmap)
    (buf : List ℕ) (len addr : ℕ) (s : State)
    → r.mapping.size ≤ addr
    → (write vm r buf addr s ≡ (err (invalid_guest_address addr), s))
      × (read vm r buf addr s ≡ (err (invalid_guest_address addr), buf))
      × (write_slice vm r buf addr s ≡ (err (invalid_guest_address addr), s))
      × (read_slice vm r buf addr s ≡ (err (invalid_guest_address addr), buf))
      × (store vm others r buf addr s ≡ (err (invalid_guest_address addr), s))
      × (load vm r len addr s ≡ err (invalid_guest_address addr))
unfolding write_slice read_slice store load
out_of_range vm others r buf len addr s h =
    let past = le→leb r.mapping.size addr h in
    (rw past refl, rw past refl, rw past refl, rw past refl, rw past refl, rw past refl)

module _ {State : Type 0} (vm : ProcessVm State) (r : GuestRegionMmap) (buf : List ℕ) (addr : ℕ)
    (s : State) (inside : addr < r.mapping.size) where
  pub write_in_range : write vm r buf addr s ≡ (
      let (res, s') = process_write_bytes vm r.pid (host_addr r addr) buf s in
      (map_err remote_mem_error res, s'))
  unfolding write
  write_in_range = let before : leb r.mapping.size addr ≡ false = ground arith in rw before refl

  pub read_in_range : read vm r buf addr s ≡ (
      let (res, out) = process_read_bytes vm r.pid buf (host_addr r addr) s in
      (map_err remote_mem_error res, out))
  unfolding read
  read_in_range = let before : leb r.mapping.size addr ≡ false = ground arith in rw before refl

module _ {State : Type 0} (vm : ProcessVm State) (r : GuestRegionMmap) (addr : ℕ) (s : State)
    (inside : addr < r.mapping.size) where
  pub store_in_range :
      (others : State → State) (val : List ℕ)
      → store vm others r val addr s ≡ (
          let (res, s') = process_store vm r.pid others (host_addr r addr) val s in
          (map_err remote_mem_error res, s'))
  unfolding store
  store_in_range others val =
      let before : leb r.mapping.size addr ≡ false = ground arith in rw before refl

  pub load_in_range :
      (len : ℕ)
      → load vm r len addr s
        ≡ map_err remote_mem_error (process_load vm r.pid len (host_addr r addr) s)
  unfolding load
  load_in_range len = let before : leb r.mapping.size addr ≡ false = ground arith in rw before refl

-- A whole transfer.
module _ {State : Type 0} (vm : ProcessVm State) (r : GuestRegionMmap) (buf : List ℕ) (addr : ℕ)
    (s : State) (inside : addr < r.mapping.size) where
  pub write_all_of :
      (vm.writev r.pid (host_addr r addr) buf s).0 ≡ done (length buf)
      → write vm r buf addr s
        ≡ (ok (length buf), (process_write_bytes vm r.pid (host_addr r addr) buf s).1)
  write_all_of e =
      write_in_range vm r buf addr s inside
      ∙ rw (process_write_bytes_done vm r.pid (host_addr r addr) buf s (length buf) e) refl

  pub read_all_of :
      (bs : List ℕ)
      → vm.readv r.pid (host_addr r addr) (length buf) s ≡ done bs
      → length bs ≡ length buf
      → read vm r buf addr s
        ≡ (ok (length buf), (process_read_bytes vm r.pid buf (host_addr r addr) s).1)
  read_all_of bs e n =
      read_in_range vm r buf addr s inside
      ∙ rw (process_read_bytes_done vm r.pid buf (host_addr r addr) s bs e, n) refl
