-- ===== src/GuestMmap/Copy.antt =====
-- `write_to` of a `GuestMemoryMmap`.
use vm_memory.Base.{
  ℕ, ◌+◌, ◌≤◌, ◌<◌, ◌≡◌, refl, sym, ◌∙◌, some, List, arith, length, replicate, length-replicate,
  word,
}
use vm_memory.RemoteMem.{done, ProcessVm, IsProcessVm, process_read_bytes}
use vm_memory.RemoteMem.Transfer.{process_read_bytes_lem, process_read_bytes_done}
use vm_memory.GuestBytes.WriteTo.{IsWriter, IsReadable, CopiesOut, write_to-CopiesOut}
use vm_memory.Bytes.{got, Writer}
use vm_memory.Mmap.{GuestRegionMmap, GuestMemoryMmap, region_mmap, find_region, memory_mmap}
use vm_memory.Mmap.Layout.{IsWellFormed}
use vm_memory.Mmap.Find.{memory_mmap-IsGuestMemory}
use vm_memory.RegionBytes.Access.{read_all_of}
use vm_memory.GuestMmap.{IsMapped}
use vm_memory.GuestBytes
use vm_memory.RegionBytes

-- The byte of a region at an offset.
abbrev pub region_byte : {State : Type 0} → (State → ℕ → ℕ → ℕ) → State → GuestRegionMmap → ℕ → ℕ
region_byte byte s r offset = byte s r.pid (r.mapping.addr + offset)

module _ {State : Type 0} (vm : ProcessVm State) (byte : State → ℕ → ℕ → ℕ)
    (laws : IsProcessVm vm byte) (others : State → State) (m : GuestMemoryMmap) (s : State) where
  -- Each mapping of the memory can be read whole, in any part, and no host address of it wraps.
  pub record IsAccessible : Type 0 where
    pub mapped : (a : ℕ) (r : GuestRegionMmap) → find_region m a ≡ some r → IsMapped r
    pub reads :
        (a : ℕ) (r : GuestRegionMmap) (offset len : ℕ)
        → find_region m a ≡ some r
        → offset + len ≤ r.mapping.size
        → (bs : List ℕ) × (vm.readv r.pid (r.mapping.addr + offset) len s ≡ done bs)
          × (length bs ≡ len)

  accessible-IsReadable :
      IsAccessible
      → IsReadable region_mmap memory_mmap
          (RegionBytes.bytes_mmap vm others)
          m
          s
          (region_byte byte s)
  accessible-IsReadable acc = record {
    no_slice = λ r. refl;
    read_inside = λ a r len caddr e p q.
        let buf : List ℕ = replicate len 0 in
        let full : length buf ≡ len = length-replicate {A = ℕ} len 0 in
        let host : RegionBytes.host_addr r caddr ≡ r.mapping.addr + caddr =
          omega (arith, acc.mapped a r e) in
        let (bs, got_bs, n) = acc.reads a r caddr len e q in
        let call : vm.readv r.pid (RegionBytes.host_addr r caddr) (length buf) s ≡ done bs =
          rw (host, full) got_bs in
        let facts =
          process_read_bytes_lem vm byte laws r.pid buf (RegionBytes.host_addr r caddr) s
            (length bs)
            (process_read_bytes_done vm r.pid buf (RegionBytes.host_addr r caddr) s bs call) in
        (
          (process_read_bytes vm r.pid buf (RegionBytes.host_addr r caddr) s).1,
          read_all_of vm r buf caddr s p bs call (n ∙ sym full) ∙ rw full refl,
          facts.1 ∙ full,
          λ i k. ground (arith, facts.2 i, host),
        );
  }

  -- With accessible mappings and a writer that takes all it is given, `write_to` of a well-formed
  -- memory returns. The writer has got the bytes of the processes that stand behind the guest
  -- addresses from `addr` on, in order and across regions, `count` of them or up to the first
  -- address with no memory; the result is their number, or an error if `addr` has no memory.
  pub guest_write_to-CopiesOut :
      {F : Type 0} (writer : Writer F) (written : F → List ℕ) (addr count : ℕ) (dst : F) (fuel : ℕ)
      → IsWellFormed m
      → IsAccessible
      → IsWriter writer written
      → ((bs : List ℕ) (d : F) → (writer.write_all bs d).0 ≡ got tt)
      → count < word
      → let (r, dst') =
          GuestBytes.write_to region_mmap memory_mmap
            (RegionBytes.bytes_mmap vm others)
            m
            fuel
            writer
            s
            addr
            count
            dst in
        CopiesOut region_mmap memory_mmap
          (RegionBytes.bytes_mmap vm others)
          m
          (region_byte byte s)
          written
          s
          addr
          count
          dst
          r
          dst'
  guest_write_to-CopiesOut writer written addr count dst fuel well acc w accepts short =
      write_to-CopiesOut region_mmap memory_mmap (RegionBytes.bytes_mmap vm others) m
        (region_byte byte s) written s addr count dst (memory_mmap-IsGuestMemory m well) short
        writer w accepts (accessible-IsReadable acc) fuel
