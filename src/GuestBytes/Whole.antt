-- ===== src/GuestBytes/Whole.antt =====
-- Reads and writes that the first region takes as a whole.
use vm_memory.Base.{ℕ, ◌-◌, ◌<◌, ◌≡◌, refl, true, some, List, arith, ◌==◌, le→leb, length, word, ok}
use vm_memory.Memory.{GuestMemory}
use vm_memory.Memory.Access.{IsGuestMemory}
use vm_memory.Memory.Once.{try_access_once}
use vm_memory.Memory.Translate.{to_region_addr_lem}
use vm_memory.Region.{GuestMemoryRegion}
use vm_memory.Bytes.{RegionContainer}
use vm_memory.GuestBytes.{write_part, write, read_part, read, write_slice, read_slice, store, load}

module _ {M R S : Type 0} (g : GuestMemoryRegion R) (gm : GuestMemory M R)
    (bytes : RegionContainer R S) (m : M) (laws : IsGuestMemory g gm m) (addr : ℕ) where
  -- A write of which the region at `addr` takes the whole buffer is that region's write, also where
  -- the buffer is longer than what the region has left.
  pub write_whole :
      (buf : List ℕ) (s s' : S) (r : R)
      → length buf < word
      → 0 < length buf
      → gm.find_region m addr ≡ some r
      → bytes.write r buf (addr - g.start_addr r) s ≡ (ok (length buf), s')
      → write g gm bytes m buf addr s ≡ (ok (length buf), s')
  unfolding write
  write_whole buf s s' r u pos e h =
      try_access_once g gm m laws (length buf) addr u (write_part g gm bytes m buf) s r s' e pos
        (rw (le→leb 0 (length buf) (omega arith)) h)

  pub read_whole :
      (buf : List ℕ) (s : S) (out : List ℕ) (r : R)
      → length buf < word
      → 0 < length buf
      → gm.find_region m addr ≡ some r
      → bytes.read r buf (addr - g.start_addr r) s ≡ (ok (length buf), out)
      → read g gm bytes m buf addr s ≡ (ok (length buf), out)
  unfolding read
  read_whole buf s out r u pos e h =
      try_access_once g gm m laws (length buf) addr u (read_part g gm bytes m s) buf r out e pos
        (rw (le→leb 0 (length buf) (omega arith), h) refl)

  -- At an address of a region, an atomic store or load is that of the region, at its offset.
  pub atomic_resolved :
      (val : List ℕ) (len : ℕ) (s : S) (r : R)
      → gm.find_region m addr ≡ some r
      → (store g gm bytes m val addr s ≡ bytes.store r val (addr - g.start_addr r) s)
        × (load g gm bytes m len addr s ≡ bytes.load r len (addr - g.start_addr r) s)
  unfolding store load
  atomic_resolved val len s r e =
      let at = ((to_region_addr_lem g gm m laws addr).0 r e).0 in (rw at refl, rw at refl)

  -- A write or a read of all bytes is what `write_slice` and `read_slice` accept.
  pub write_slice_all :
      (buf : List ℕ) (s : S)
      → (write g gm bytes m buf addr s).0 ≡ ok (length buf)
      → write_slice g gm bytes m buf addr s ≡ (ok tt, (write g gm bytes m buf addr s).1)
  unfolding write_slice
  write_slice_all buf s e =
      let same : (length buf == length buf) ≡ true = ground arith in rw (e, same) refl

  pub read_slice_all :
      (buf : List ℕ) (s : S)
      → (read g gm bytes m buf addr s).0 ≡ ok (length buf)
      → read_slice g gm bytes m buf addr s ≡ (ok tt, (read g gm bytes m buf addr s).1)
  unfolding read_slice
  read_slice_all buf s e =
      let same : (length buf == length buf) ≡ true = ground arith in rw (e, same) refl
