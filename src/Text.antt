-- ===== src/Text.antt =====
-- The `Display` of the errors, `impl fmt::Display for Error` of each file that has an `Error`. How a
-- number and an error of the operating system are printed is a parameter.
pub mod Read
mod Tests
use Prim.Native.Char.{code}
use Prim.Native.String.{String}
use vm_memory.Base.{ℕ, List, [], ◌∷◌, ◌++◌, length}
use vm_memory.RemoteMem
use vm_memory.Region
use vm_memory.Volatile
use vm_memory.MmapUnix
use vm_memory.Mmap

-- The characters of a text.
abbrev pub codes : String → List ℕ
codes String.[] = []
codes (String.◌∷◌ c s) = code c ∷ codes s

-- `{}` and `{:x}` of a number, and `{}` of an `io::Error` and of a `nix::Error`.
pub record Format : Type 0 where
  pub decimal : ℕ → List ℕ
  pub lower_hex : ℕ → List ℕ
  pub io_text : ℕ → List ℕ
  pub errno_text : ℕ → List ℕ

module _ (f : Format) where
  unfoldable pub remote_text : RemoteMem.Error → List ℕ
  remote_text (RemoteMem.rw_failed e) =
      codes "cannot read/write from remote process memory: " ++ f.errno_text e
  remote_text (RemoteMem.byte_count is should) =
      codes "reading from remote process memory: "
      ++ (f.decimal is
          ++ (codes " bytes completed, " ++ (f.decimal should ++ codes " bytes expected")))

  abbrev pub used_text : ℕ → ℕ → List ℕ
  used_text completed expected =
      codes "only used "
      ++ (f.decimal completed
          ++ (codes " bytes in " ++ (f.decimal expected ++ codes " long buffer")))

  abbrev pub guest_kind : Region.Error → List ℕ
  guest_kind (Region.invalid_guest_address addr) = codes "invalid guest address " ++ f.decimal addr
  guest_kind (Region.io_error e) = f.io_text e
  guest_kind (Region.partial_buffer expected completed) = used_text completed expected
  guest_kind Region.invalid_backend_address = codes "invalid backend address"
  guest_kind Region.host_address_not_available = codes "host virtual address not available"
  guest_kind (Region.remote_mem_error e) =
      codes "memory of remote process not accessible: " ++ remote_text e

  unfoldable pub guest_text : Region.Error → List ℕ
  unfolding remote_text
  guest_text e = codes "Guest memory error: " ++ guest_kind e

  unfoldable pub volatile_text : Volatile.Error → List ℕ
  volatile_text (Volatile.out_of_bounds addr) =
      codes "address 0x" ++ (f.lower_hex addr ++ codes " is out of bounds")
  volatile_text (Volatile.overflow base offset) =
      codes "address 0x"
      ++ (f.lower_hex base
          ++ (codes " offset by 0x" ++ (f.lower_hex offset ++ codes " would overflow")))
  volatile_text (Volatile.too_big nelements size) =
      f.decimal nelements
      ++ (codes " elements of size " ++ (f.decimal size ++ codes " would overflow a usize"))
  volatile_text (Volatile.misaligned addr alignment) =
      codes "address 0x"
      ++ (f.lower_hex addr ++ (codes " is not aligned to " ++ f.decimal alignment))
  volatile_text (Volatile.io_error e) = f.io_text e
  volatile_text (Volatile.partial_buffer expected completed) = used_text completed expected

  unfoldable pub unix_text : MmapUnix.Error → List ℕ
  unix_text MmapUnix.invalid_offset_length =
      codes "The specified file offset and length cause overflow when added"
  unix_text MmapUnix.invalid_pointer =
      codes "The specified pointer to the mapping is not page-aligned"
  unix_text MmapUnix.invalid_size =
      codes "The specified size for the region is not a multiple of the page size"
  unix_text MmapUnix.map_fixed = codes "The forbidden `MAP_FIXED` flag was specified"
  unix_text MmapUnix.mapping_overlap =
      codes "Mappings using the same fd overlap in terms of file offset and length"
  unix_text MmapUnix.mapping_past_eof =
      codes "The specified file offset and length is greater then file length"
  unix_text (MmapUnix.mmap_failed e) = f.io_text e

  unfoldable pub mmap_text : Mmap.Error → List ℕ
  unfolding unix_text
  mmap_text Mmap.invalid_guest_region =
      codes
        "Adding the guest base address to the length of the underlying mapping resulted in an overflow"
  mmap_text (Mmap.mmap_region e) = unix_text e
  mmap_text Mmap.no_memory_region = codes "No memory region found"
  mmap_text Mmap.memory_region_overlap =
      codes "Some of the memory regions intersect with each other"
  mmap_text Mmap.unsorted_memory_regions = codes "The provided memory regions haven't been sorted"
