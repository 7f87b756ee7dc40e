-- ===== src/MmapUnix.antt =====
-- src/mmap_unix.rs: `MmapRegion`, a mapping in this process or a raw one, with its constructors; and
-- `check_file_offset` of src/mmap.rs. The operating system is the parameter `Os`.
pub mod Overlap
pub mod Build
pub mod Raw
pub mod Slice
pub mod Sample
pub mod Tests
use vm_memory.Base.{
  ℕ, bit_and, bit_or, Bool, true, false, Option, none, some, ltb, ◌==◌, if◌then◌else◌, wrapping_add,
  wrapping_sub, add_checked, Outcome, panic, stuck, err, ok, ◌>>◌,
}
use vm_memory.RemoteMem.{Sys, done, failed}

-- `FileOffset` of src/guest_memory.rs. The file is its descriptor; different descriptors can stand for
-- the same file.
pub record FileOffset : Type 0 where
  pub file : ℕ
  pub start : ℕ

-- `mmap_unix::Error`; the `io::Error` is an `errno`.
pub data Error : Type 0 where
  invalid_offset_length invalid_pointer invalid_size : Error
  map_fixed mapping_overlap mapping_past_eof : Error
  mmap_failed : ℕ → Error

-- The pointer is its address; `prot` and `flags` are bit patterns.
pub record MmapRegion : Type 0 where
  pub addr : ℕ
  pub size : ℕ
  pub file_offset : Option FileOffset
  pub prot : ℕ
  pub flags : ℕ
  pub owned : Bool
  pub hugetlbfs : Option Bool

-- What the constructors ask of the operating system: the length of a file, if its metadata can be
-- read; the address of a new mapping of `size prot flags fd offset` at a place of its choice, with
-- no descriptor for -1; the page size; and the bits of the `libc` constants.
pub record Os (State : Type 0) : Type 0 where
  pub file_len : ℕ → State → Option ℕ
  pub mmap : ℕ → ℕ → ℕ → Option ℕ → ℕ → State → Sys ℕ × State
  pub munmap : ℕ → ℕ → State → State
  pub page_size : ℕ
  pub prot_read : ℕ
  pub prot_write : ℕ
  pub map_anonymous : ℕ
  pub map_noreserve : ℕ
  pub map_private : ℕ
  pub map_shared : ℕ
  pub map_fixed_bit : ℕ

abbrev pub past_eof : ℕ → Option ℕ → Outcome Error (Unit {0})
past_eof end none = ok tt
past_eof end (some file_end) = if ltb file_end end then err mapping_past_eof else ok tt

abbrev pub in_file : Option ℕ → Option ℕ → Outcome Error (Unit {0})
in_file known none = err invalid_offset_length
in_file known (some end) = past_eof end known

module _ {State : Type 0} (os : Os State) where
  unfoldable pub check_file_offset : FileOffset → ℕ → State → Outcome Error (Unit {0})
  check_file_offset file_offset size s =
      in_file (os.file_len file_offset.file s) (add_checked file_offset.start size)

  -- The check and the descriptor and offset that `build` hands to `mmap`.
  abbrev pub backing : Option FileOffset → ℕ → State → Outcome Error (Option ℕ × ℕ)
  backing none size s = ok (none, 0)
  backing (some f_off) size s = check_file_offset f_off size s >> ok (some f_off.file, f_off.start)

  abbrev pub mapped :
      Option FileOffset → ℕ → ℕ → ℕ → Sys ℕ × State → Outcome Error MmapRegion × State
  mapped file_offset size prot flags (failed e, s) = (err (mmap_failed e), s)
  mapped file_offset size prot flags (done addr, s) = (
    ok (record {
      addr = addr;
      size = size;
      file_offset = file_offset;
      prot = prot;
      flags = flags;
      owned = true;
      hugetlbfs = none;
    }),
    s,
  )

  -- The end of `build`, once the backing has been checked.
  abbrev pub map_backed :
      Option FileOffset
      → ℕ
      → ℕ
      → ℕ
      → Outcome Error (Option ℕ × ℕ)
      → State
      → Outcome Error MmapRegion × State
  map_backed file_offset size prot flags (ok (fd, offset)) s =
      mapped file_offset size prot flags (os.mmap size prot flags fd offset s)
  map_backed file_offset size prot flags (err e) s = (err e, s)
  map_backed file_offset size prot flags panic s = (panic, s)
  map_backed file_offset size prot flags stuck s = (stuck, s)

  unfoldable pub build : Option FileOffset → ℕ → ℕ → ℕ → State → Outcome Error MmapRegion × State
  unfolding check_file_offset
  build file_offset size prot flags s =
      if bit_and flags os.map_fixed_bit == 0
      then map_backed file_offset size prot flags (backing file_offset size s) s
      else (err map_fixed, s)

  unfoldable pub new : ℕ → State → Outcome Error MmapRegion × State
  unfolding build
  new size s =
      build none size (bit_or os.prot_read os.prot_write)
        (bit_or (bit_or os.map_anonymous os.map_noreserve) os.map_private) s

  unfoldable pub from_file : FileOffset → ℕ → State → Outcome Error MmapRegion × State
  unfolding build
  from_file file_offset size s =
      build (some file_offset) size (bit_or os.prot_read os.prot_write)
        (bit_or os.map_noreserve os.map_shared) s

  pub build_raw : ℕ → ℕ → ℕ → ℕ → Outcome Error MmapRegion
  build_raw addr size prot flags =
      if bit_and addr (wrapping_sub os.page_size 1) == 0
      then if bit_and size (wrapping_sub os.page_size 1) == 0
        then ok (record {
          addr = addr;
          size = size;
          file_offset = none;
          prot = prot;
          flags = flags;
          owned = false;
          hugetlbfs = none;
        })
        else err invalid_size
      else err invalid_pointer

  -- `Drop`: only a mapping that this process made is unmapped.
  unfoldable pub drop_region : MmapRegion → State → State
  drop_region r s = if r.owned then os.munmap r.addr r.size s else s

-- Whether two ranges `[s, s + l)` meet; the sums wrap.
abbrev pub ranges_overlap : ℕ → ℕ → ℕ → ℕ → Bool
ranges_overlap s1 l1 s2 l2 =
    if ltb s1 s2 then ltb s2 (wrapping_add s1 l1) else ltb s1 (wrapping_add s2 l2)

-- Files are compared by their descriptors.
abbrev pub files_overlap : Option FileOffset → ℕ → Option FileOffset → ℕ → Bool
files_overlap (some f_off1) l1 (some f_off2) l2 =
    if f_off1.file == f_off2.file then ranges_overlap f_off1.start l1 f_off2.start l2 else false
files_overlap none l1 other l2 = false
files_overlap (some f_off1) l1 none l2 = false

pub fds_overlap : MmapRegion → MmapRegion → Bool
fds_overlap self other = files_overlap self.file_offset self.size other.file_offset other.size
