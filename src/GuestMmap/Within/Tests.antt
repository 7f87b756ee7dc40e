-- ===== src/GuestMmap/Within/Tests.antt =====
-- Reads and writes inside a region, with system calls that move at most two bytes at a time.
use vm_memory.Base.{
  ℕ, ◌-◌, ◌<◌, min, ◌≡◌, refl, ap, some, List, [], ◌∷◌, arith, length, take, length-take,
  get_or-take, Outcome, ok,
}
use vm_memory.Region.{Error}
use vm_memory.RemoteMem.{done, ProcessVm, IsProcessVm}
use vm_memory.RemoteMem.Flat.{
  Space, tabulate, overwrite, flat_byte, length-tabulate, get_or-tabulate,
}
use vm_memory.Mmap.{find_region}
use vm_memory.Mmap.Find.{find_region-containing}
use vm_memory.Mmap.Sample.{high, two_regions, two_regions-IsWellFormed, space}
use vm_memory.GuestMmap.{guest_write, guest_read}
use vm_memory.GuestMmap.Within.Write.{Put, Writes, guest_write-Writes}
use vm_memory.GuestMmap.Within.Read.{Reads, guest_read-Reads}
use vm_memory.GuestMmap.Within.Slices.{SliceWritten}
use vm_memory.GuestMmap.Within.Objects.{
  stored, write_obj-SliceWritten, ReadsBack, read_obj-ReadsBack,
}
use vm_memory.GuestMmap.Objects.{guest_container}
use vm_memory.ByteValued.{read_obj}

abbrev slow : ProcessVm Space
slow = record {
  readv = λ pid base len s. done (tabulate base (min len 2) (s pid));
  writev = λ pid base bs s. (done (length (take 2 bs)), overwrite pid base (take 2 bs) s);
}

done_inj : {A : Type 0} {a b : A} → done a ≡ done b → a ≡ b
done_inj h = cc

slow-IsProcessVm : IsProcessVm slow flat_byte
slow-IsProcessVm = record {
  readv_le = λ pid base len s bs h.
      rw (← done_inj h) (omega (arith, length-tabulate base (min len 2) (s pid)));
  readv_bytes = λ pid base len s bs i h p.
      let e : tabulate base (min len 2) (s pid) ≡ bs = done_inj h in
      let q : i < min len 2 =
        omega (arith, ap length e, length-tabulate base (min len 2) (s pid)) in
      rw (← e) (get_or-tabulate base (min len 2) (s pid) i q);
  writev_le = λ pid base bs s n h. omega (arith, done_inj h, length-take 2 bs);
  writev_bytes = λ pid base bs s n q a h.
      rw (← done_inj h) (ground (arith, get_or-take 2 bs (a - base) 0, length-take 2 bs));
  writev_failed = λ pid base bs s e q a h. cc;
}

abbrev idle : Space → Space
idle s = s

found_high : find_region two_regions 0x2011 ≡ some high
found_high = find_region-containing two_regions 0x2011 two_regions-IsWellFormed

-- Three bytes take two calls.
abbrev written : Outcome Error ℕ × Space
written = guest_write slow idle two_regions (1 ∷ 2 ∷ 3 ∷ []) 0x2011 space

guest_write-Writes_example :
    Writes slow flat_byte (1 ∷ 2 ∷ 3 ∷ []) space 7 0x90001 written.0 written.1
guest_write-Writes_example =
    guest_write-Writes slow flat_byte slow-IsProcessVm idle two_regions two_regions-IsWellFormed
      0x2011 (1 ∷ 2 ∷ 3 ∷ []) space high found_high (omega arith) (omega arith) (omega arith)

written_run : written.0 ≡ ok 3
unfolding guest_write vm_memory.GuestBytes.write vm_memory.Memory.try_access find_region
    vm_memory.RegionBytes.write vm_memory.RemoteMem.process_write_bytes
written_run = refl

abbrev read_back : Outcome Error ℕ × List ℕ
read_back = guest_read slow idle two_regions (0 ∷ 0 ∷ 0 ∷ []) 0x2011 space

guest_read-Reads_example :
    Reads slow flat_byte (0 ∷ 0 ∷ 0 ∷ []) space 7 0x90001 read_back.0 read_back.1
guest_read-Reads_example =
    guest_read-Reads slow flat_byte slow-IsProcessVm idle two_regions two_regions-IsWellFormed
      0x2011 (0 ∷ 0 ∷ 0 ∷ []) space high found_high (omega arith) (omega arith) (omega arith)

read_run : read_back ≡ (ok 3, 1 ∷ 2 ∷ 3 ∷ [])
unfolding guest_read vm_memory.GuestBytes.read vm_memory.Memory.try_access find_region
    vm_memory.RegionBytes.read vm_memory.RemoteMem.process_read_bytes tabulate
read_run = refl

abbrev object_stored : Outcome Error (Unit {0}) × Space
object_stored =
    stored slow flat_byte slow-IsProcessVm idle two_regions two_regions-IsWellFormed 0x2011
      (1 ∷ 2 ∷ 3 ∷ []) space high found_high (omega arith) (omega arith) (omega arith)

stored_run : object_stored.0 ≡ ok tt
unfolding vm_memory.GuestBytes.write_slice vm_memory.Memory.try_access find_region
    vm_memory.RegionBytes.write vm_memory.RemoteMem.process_write_bytes
stored_run = refl

write_obj-SliceWritten_example :
    (n : ℕ) × Put slow flat_byte (1 ∷ 2 ∷ 3 ∷ []) space 7 0x90001 n object_stored.1
    × SliceWritten slow flat_byte (1 ∷ 2 ∷ 3 ∷ []) space 7 0x90001 object_stored.0 n
write_obj-SliceWritten_example =
    write_obj-SliceWritten slow flat_byte slow-IsProcessVm idle two_regions two_regions-IsWellFormed
      0x2011 (1 ∷ 2 ∷ 3 ∷ []) space high found_high (omega arith) (omega arith) (omega arith)

read_obj-ReadsBack_example :
    ReadsBack slow flat_byte slow-IsProcessVm idle two_regions two_regions-IsWellFormed 0x2011
      (1 ∷ 2 ∷ 3 ∷ [])
      space
      high
      found_high
      (omega arith)
      (omega arith)
      (omega arith)
      (0 ∷ 0 ∷ 0 ∷ [])
      refl
      (read_obj (guest_container slow idle two_regions) (0 ∷ 0 ∷ 0 ∷ []) 0x2011 object_stored.1)
read_obj-ReadsBack_example =
    read_obj-ReadsBack slow flat_byte slow-IsProcessVm idle two_regions two_regions-IsWellFormed
      0x2011 (1 ∷ 2 ∷ 3 ∷ []) space high found_high (omega arith) (omega arith) (omega arith)
      (0 ∷ 0 ∷ 0 ∷ []) refl stored_run
