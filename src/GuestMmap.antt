-- ===== src/GuestMmap.antt =====
-- `GuestMemoryMmap` as `Bytes<GuestAddress>`: src/guest_memory.rs over src/mmap.rs and
-- src/remote_mem.rs. The guest memory of a process, byte by byte.
pub mod Copy
pub mod Fill
pub mod Streams
pub mod Guard
pub mod Within
pub mod Atomics
pub mod Objects
pub mod Host
mod Tests
use vm_memory.Base.{
  ℕ, ◌+◌, ◌-◌, ◌<◌, ◌≡◌, refl, ◌&&◌, some, List, arith, ltb, leb, ◌==◌, if◌then◌else◌, length,
  get_or, word, Outcome, ok,
}
use vm_memory.Region.{Error}
use vm_memory.RemoteMem.{done, ProcessVm, IsProcessVm}
use vm_memory.RemoteMem.Transfer.{
  process_read_bytes_lem, process_write_bytes_lem, process_write_bytes_done,
  process_read_bytes_done,
}
use vm_memory.GuestBytes.Whole.{write_whole, read_whole}
use vm_memory.Mmap.{GuestRegionMmap, GuestMemoryMmap, region_mmap, find_region, memory_mmap}
use vm_memory.Mmap.Layout.{IsWellFormed}
use vm_memory.Mmap.Find.{memory_mmap-IsGuestMemory}
use vm_memory.RegionBytes.Access.{write_all_of, read_all_of}
use vm_memory.GuestBytes
use vm_memory.RegionBytes

-- Where the byte at a guest address of a region stands in the process.
abbrev pub host_of : GuestRegionMmap → ℕ → ℕ
host_of r a = r.mapping.addr + (a - r.guest_base)

-- No host address of the region wraps.
abbrev pub IsMapped : GuestRegionMmap → Type 0
IsMapped r = r.mapping.addr + r.mapping.size < word

module _ {State : Type 0} (vm : ProcessVm State) (others : State → State)
    (m : GuestMemoryMmap) where
  unfoldable pub guest_write : List ℕ → ℕ → State → Outcome Error ℕ × State
  guest_write = GuestBytes.write region_mmap memory_mmap (RegionBytes.bytes_mmap vm others) m

  unfoldable pub guest_read : List ℕ → ℕ → State → Outcome Error ℕ × List ℕ
  guest_read = GuestBytes.read region_mmap memory_mmap (RegionBytes.bytes_mmap vm others) m

module _ {State : Type 0} (vm : ProcessVm State) (byte : State → ℕ → ℕ → ℕ)
    (laws : IsProcessVm vm byte) (others : State → State) (m : GuestMemoryMmap)
    (well : IsWellFormed m) (addr : ℕ) (buf : List ℕ) (s : State) (r : GuestRegionMmap)
    (at : find_region m addr ≡ some r) (mapped : IsMapped r) (short : length buf < word)
    (some_bytes : 0 < length buf) where
  offset_inside : addr - r.guest_base < r.mapping.size
  offset_inside =
      let inside = (memory_mmap-IsGuestMemory m well).found_in addr r at in omega (arith, inside)

  host_addr_lem : RegionBytes.host_addr r (addr - r.guest_base) ≡ host_of r addr
  host_addr_lem = omega (arith, offset_inside)

  -- A write whose system call transfers the buffer returns its length. The buffer then stands at
  -- consecutive addresses of the process that has the region, from the host address of `addr` on,
  -- and no other byte has changed. Nothing holds the buffer inside the region.
  pub guest_write_lem :
      (vm.writev r.pid (host_of r addr) buf s).0 ≡ done (length buf)
      → ((guest_write vm others m buf addr s).0 ≡ ok (length buf))
        × ((q a : ℕ)
            → byte (guest_write vm others m buf addr s).1 q a ≡ (
                if q == r.pid && (leb (host_of r addr) a && ltb a (host_of r addr + length buf))
                then get_or buf (a - host_of r addr) 0
                else byte s q a))
  unfolding guest_write
  guest_write_lem e =
      let host = RegionBytes.host_addr r (addr - r.guest_base) in
      let e' : (vm.writev r.pid host buf s).0 ≡ done (length buf) = rw host_addr_lem e in
      let w =
        write_whole region_mmap memory_mmap (RegionBytes.bytes_mmap vm others) m
          (memory_mmap-IsGuestMemory m well) addr buf s _ r short some_bytes at
          (write_all_of vm r buf (addr - r.guest_base) s offset_inside e') in
      rw (w, host_addr_lem)
        (
          refl,
          (process_write_bytes_lem vm byte laws r.pid (host_of r addr) buf s (length buf)
              (process_write_bytes_done vm r.pid (host_of r addr) buf s (length buf) e)).1,
        )

  -- A read whose system call fills the buffer returns its length, and gives the bytes of the process
  -- from the host address of `addr` on. Nothing keeps these inside the region.
  pub guest_read_lem :
      (bs : List ℕ)
      → vm.readv r.pid (host_of r addr) (length buf) s ≡ done bs
      → length bs ≡ length buf
      → ((guest_read vm others m buf addr s).0 ≡ ok (length buf))
        × (length (guest_read vm others m buf addr s).1 ≡ length buf)
        × ((i : ℕ)
            → i < length buf
            → get_or (guest_read vm others m buf addr s).1 i 0 ≡ byte s r.pid (host_of r addr + i))
  unfolding guest_read
  guest_read_lem bs e n =
      let host = RegionBytes.host_addr r (addr - r.guest_base) in
      let e' : vm.readv r.pid host (length buf) s ≡ done bs = rw host_addr_lem e in
      let w =
        read_whole region_mmap memory_mmap (RegionBytes.bytes_mmap vm others) m
          (memory_mmap-IsGuestMemory m well) addr buf s _ r short some_bytes at
          (read_all_of vm r buf (addr - r.guest_base) s offset_inside bs e' n) in
      let facts =
        process_read_bytes_lem vm byte laws r.pid buf (host_of r addr) s (length bs)
          (process_read_bytes_done vm r.pid buf (host_of r addr) s bs e) in
      rw (w, host_addr_lem) (refl, facts.1, λ i p. ground (arith, facts.2 i))
