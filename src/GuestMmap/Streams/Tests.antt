-- ===== src/GuestMmap/Streams/Tests.antt =====
-- A stream of bytes into both regions of a guest memory and out again, with a reader that is
-- interrupted before every answer.
use vm_memory.Base.{
  ℕ, ◌+◌, ◌≡◌, refl, sym, ◌∙◌, Bool, true, false, some, List, [], ◌∷◌, ◌++◌, arith, length, take,
  drop, length-take, Outcome, panic, ok,
}
use vm_memory.Region.{Error}
use vm_memory.RemoteMem.{done, ProcessVm, process_write_bytes}
use vm_memory.RemoteMem.Flat.{
  Space, tabulate, overwrite, flat, flat_byte, length-tabulate, flat-IsProcessVm,
}
use vm_memory.Memory.{try_access}
use vm_memory.Bytes.{Io, got, interrupted, Reader, Writer}
use vm_memory.GuestBytes.Source.{Takes, IsSource}
use vm_memory.Volatile.Streams.Ends.{Fitting, SettlesAfter, Settles}
use vm_memory.GuestBytes.WriteTo.{IsWriter}
use vm_memory.GuestBytes.ReadFrom.{CopiesIn}
use vm_memory.Mmap.{GuestRegionMmap, region_mmap, find_region, memory_mmap}
use vm_memory.Mmap.Layout.{containing}
use vm_memory.Mmap.Find.{find_region-containing}
use vm_memory.Mmap.Sample.{two_regions, two_regions-IsWellFormed}
use vm_memory.GuestMmap.Copy.{IsAccessible}
use vm_memory.GuestMmap.Fill.{guest_byte, Untouched, IsStorable, guest_read_from-CopiesIn}
use vm_memory.GuestMmap.Streams.{read_in, written_out, Passes, write_to-read_from}
use vm_memory.GuestBytes
use vm_memory.RegionBytes

abbrev idle : Space → Space
idle s = s

-- What has been given, what is left, and whether the next call is interrupted.
record Source : Type 0 where
  given : List ℕ
  left_over : List ℕ
  tired : Bool

abbrev answered : ℕ → Source → Bool → Io (List ℕ) × Source
answered len src true = (interrupted, record src { tired = false })
answered len src false = (
  got (take len src.left_over),
  record {
    given = src.given ++ take len src.left_over;
    left_over = drop len src.left_over;
    tired = true;
  },
)

abbrev tiring : Reader Source
tiring = record { read = λ len src. answered len src src.tired }

answered-Fitting : (len : ℕ) (src : Source) (b : Bool) → Fitting tiring len (answered len src b).0
answered-Fitting len src true = tt
answered-Fitting len src false = omega (arith, length-take len src.left_over)

answered-Takes :
    (len : ℕ) (src : Source) (b : Bool) → Takes tiring (λ d. d.given) src (answered len src b)
answered-Takes len src true = refl
answered-Takes len src false = refl

tiring-IsSource : IsSource tiring (λ d. d.given)
tiring-IsSource = record {
  fits = λ len src. answered-Fitting len src src.tired;
  takes = λ len src. answered-Takes len src src.tired;
}

answered-Settles :
    (len : ℕ) (src : Source) (b : Bool)
    → SettlesAfter tiring (Settles tiring 1 len) (answered len src b)
unfolding Settles SettlesAfter
answered-Settles len src true = tt
answered-Settles len src false = tt

tiring-Settles : (len : ℕ) (src : Source) → Settles tiring 2 len src
unfolding Settles
tiring-Settles len src = answered-Settles len src src.tired

two_regions_found :
    (a : ℕ) (r : GuestRegionMmap)
    → find_region two_regions a ≡ some r
    → containing two_regions.regions a ≡ some r
two_regions_found a r e = sym (find_region-containing two_regions a two_regions-IsWellFormed) ∙ e

two_regions-IsStorable : IsStorable flat flat_byte flat-IsProcessVm idle two_regions
two_regions-IsStorable = record {
  mapped = λ a r e. ground (arith, two_regions_found a r e);
  disjoint =
      λ a b r q e k pid host. ground (arith, two_regions_found a r e, two_regions_found b q k);
}

two_regions-IsAccessible :
    (s : Space) → IsAccessible flat flat_byte flat-IsProcessVm idle two_regions s
two_regions-IsAccessible s = record {
  mapped = λ a r e. ground (arith, two_regions_found a r e);
  reads = λ a r start len e p. (
    tabulate (r.mapping.addr + start) len (s r.pid),
    refl,
    length-tabulate (r.mapping.addr + start) len (s r.pid),
  );
}

abbrev kept : Writer (List ℕ)
kept = record { write = λ bs d. (got (length bs), d ++ bs); write_all = λ bs d. (got tt, d ++ bs) }

kept-IsWriter : IsWriter kept (λ d. d)
kept-IsWriter = record { write_all_got = λ bs d e. refl }

abbrev nothing : Space
nothing pid a = 0

abbrev three : Source
three = record { given = []; left_over = 7 ∷ 8 ∷ 9 ∷ []; tired = true }

-- One byte goes to the end of the first region, and two to the second.
abbrev read_run : Outcome Error ℕ × record { mem : Space; io : Source }
read_run =
    read_in flat flat_byte flat-IsProcessVm idle two_regions two_regions-IsWellFormed
      two_regions-IsStorable tiring (λ d. d.given) tiring-IsSource kept (λ d. d) kept-IsWriter
      (λ bs d. refl) 0x200f 2 tiring-Settles 3 nothing three

run_count : read_run.0 ≡ ok 3
unfolding GuestBytes.read_from find_region process_write_bytes RegionBytes.write try_access
    GuestBytes.read_again
run_count = refl

-- The three bytes are taken, and stand at the end of the first region and in the second.
guest_read_from-CopiesIn_example :
    CopiesIn region_mmap memory_mmap
      (RegionBytes.bytes_mmap flat idle)
      two_regions
      (guest_byte flat flat_byte flat-IsProcessVm idle two_regions)
      (Untouched flat flat_byte flat-IsProcessVm idle two_regions)
      tiring
      (λ d. d.given)
      0x200f
      3
      nothing
      three
      read_run.0
      read_run.1
guest_read_from-CopiesIn_example =
    guest_read_from-CopiesIn flat flat_byte flat-IsProcessVm idle two_regions
      two_regions-IsWellFormed two_regions-IsStorable tiring (λ d. d.given) 0x200f 3 2 nothing three
      tiring-IsSource tiring-Settles (omega arith)

abbrev given_out : Outcome Error ℕ × List ℕ
given_out =
    written_out flat flat_byte flat-IsProcessVm idle two_regions two_regions-IsWellFormed
      two_regions-IsStorable tiring (λ d. d.given) tiring-IsSource kept (λ d. d) kept-IsWriter
      (λ bs d. refl) 0x200f 2 tiring-Settles 3 read_run.1.mem []

write_to-read_from_example :
    Passes flat flat_byte flat-IsProcessVm idle two_regions two_regions-IsWellFormed
      two_regions-IsStorable tiring
      (λ d. d.given)
      tiring-IsSource
      kept
      (λ d. d)
      kept-IsWriter
      (λ bs d. refl)
      0x200f
      2
      tiring-Settles
      three
      read_run.1.io
      []
      3
      given_out.0
      given_out.1
write_to-read_from_example =
    write_to-read_from flat flat_byte flat-IsProcessVm idle two_regions two_regions-IsWellFormed
      two_regions-IsStorable tiring (λ d. d.given) tiring-IsSource kept (λ d. d) kept-IsWriter
      (λ bs d. refl) 0x200f 2 tiring-Settles 3 3 nothing three [] (omega arith) (omega arith)
      run_count (two_regions-IsAccessible read_run.1.mem)

-- Writes of at most one byte.
abbrev short_writes : ProcessVm Space
short_writes = record {
  readv = λ pid base len s. done (tabulate base len (s pid));
  writev = λ pid base bs s. (done (length (take 1 bs)), overwrite pid base (take 1 bs) s);
}

-- Of two bytes for one region, one is written, and the assertion behind the write panics.
short_write_run :
    (GuestBytes.read_from region_mmap memory_mmap
      (RegionBytes.bytes_mmap short_writes idle)
      two_regions
      2
      tiring
      0x2010
      2
      (record { mem = nothing; io = three })).0
    ≡ panic
unfolding GuestBytes.read_from find_region process_write_bytes RegionBytes.write try_access
    GuestBytes.read_again
short_write_run = refl
