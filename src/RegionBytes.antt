-- ===== src/RegionBytes.antt =====
-- src/mmap.rs: `impl Bytes<MemoryRegionAddress> for GuestRegionMmap`, through the system calls of
-- src/remote_mem.rs, and the other methods of `GuestMemoryRegion` for it.
pub mod Access
use vm_memory.Volatile.{VolatileSlice}
use vm_memory.Base.{
  ℕ, none, List, leb, ◌==◌, if◌then◌else◌, length, wrapping_add, Outcome, panic, err, ok, ◌>>=◌,
  map_err, map_ok, ok_or,
}
use vm_memory.Region.{Error, invalid_guest_address, invalid_backend_address, remote_mem_error}
use vm_memory.RemoteMem.{
  ProcessVm, byte_count, process_read_bytes, process_write_bytes, process_load, process_store,
}
use vm_memory.Mmap.{GuestRegionMmap, region_mmap}
use vm_memory.Bytes.{RegionContainer}
use vm_memory.Region

-- The address of an offset of a region in the process that has it.
abbrev pub host_addr : GuestRegionMmap → ℕ → ℕ
host_addr r maddr = wrapping_add r.mapping.addr maddr

module _ {State : Type 0} (vm : ProcessVm State) where
  unfoldable pub write : GuestRegionMmap → List ℕ → ℕ → State → Outcome Error ℕ × State
  write r buf addr s =
      if leb r.mapping.size addr
      then (err (invalid_guest_address addr), s)
      else let (res, s') = process_write_bytes vm r.pid (host_addr r addr) buf s in
        (map_err remote_mem_error res, s')

  unfoldable pub read : GuestRegionMmap → List ℕ → ℕ → State → Outcome Error ℕ × List ℕ
  read r buf addr s =
      if leb r.mapping.size addr
      then (err (invalid_guest_address addr), buf)
      else let (res, out) = process_read_bytes vm r.pid buf (host_addr r addr) s in
        (map_err remote_mem_error res, out)

  abbrev pub all_or_count : ℕ → Outcome Error ℕ → Outcome Error (Unit {0})
  all_or_count should res =
      res >>= λ is. if is == should then ok tt else err (remote_mem_error (byte_count is should))

  pub write_slice : GuestRegionMmap → List ℕ → ℕ → State → Outcome Error (Unit {0}) × State
  unfolding write
  write_slice r buf addr s =
      let (res, s') = write r buf addr s in (all_or_count (length buf) res, s')

  pub read_slice : GuestRegionMmap → List ℕ → ℕ → State → Outcome Error (Unit {0}) × List ℕ
  unfolding read
  read_slice r buf addr s =
      let (res, out) = read r buf addr s in (all_or_count (length buf) res, out)

  -- `others` is what the other threads of the process do during the store.
  pub store :
      (State → State) → GuestRegionMmap → List ℕ → ℕ → State → Outcome Error (Unit {0}) × State
  store others r val addr s =
      if leb r.mapping.size addr
      then (err (invalid_guest_address addr), s)
      else let (res, s') = process_store vm r.pid others (host_addr r addr) val s in
        (map_err remote_mem_error res, s')

  pub load : GuestRegionMmap → ℕ → ℕ → State → Outcome Error (List ℕ)
  load r len addr s =
      if leb r.mapping.size addr
      then err (invalid_guest_address addr)
      else map_err remote_mem_error (process_load vm r.pid len (host_addr r addr) s)

  -- `as_slice` and `as_mut_slice` give `None`.
  abbrev pub bytes_mmap : (State → State) → RegionContainer GuestRegionMmap State
  bytes_mmap others = record {
    write = write;
    read = read;
    store = store others;
    load = load;
    as_slice = λ r s. none;
    write_through = λ r caddr bs s. s;
  }

unfoldable pub get_host_address : GuestRegionMmap → ℕ → Outcome Error ℕ
get_host_address r addr =
    map_ok (λ a. host_addr r a)
      (ok_or (Region.check_address region_mmap r addr) invalid_backend_address)

-- `unimplemented!()`, with which these methods begin.
abbrev pub unimplemented : {A : Type 0} → Outcome Error A
unimplemented = panic

abbrev pub read_from : {F : Type 0} → GuestRegionMmap → ℕ → F → ℕ → Outcome Error ℕ
read_from r addr src count = unimplemented

abbrev pub read_exact_from : {F : Type 0} → GuestRegionMmap → ℕ → F → ℕ → Outcome Error (Unit {0})
read_exact_from r addr src count = unimplemented

abbrev pub write_to : {F : Type 0} → GuestRegionMmap → ℕ → F → ℕ → Outcome Error ℕ
write_to r addr dst count = unimplemented

abbrev pub write_all_to : {F : Type 0} → GuestRegionMmap → ℕ → F → ℕ → Outcome Error (Unit {0})
write_all_to r addr dst count = unimplemented

abbrev pub get_slice : GuestRegionMmap → ℕ → ℕ → Outcome Error VolatileSlice
get_slice r start count = unimplemented
