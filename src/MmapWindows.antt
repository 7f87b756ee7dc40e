-- ===== src/MmapWindows.antt =====
-- src/mmap_windows.rs: `MmapRegion` on Windows. The functions of the Windows API are the parameter
-- `WinOs`; a pointer or a handle is a number, and an error of `io` the number of the system's error.
pub mod Offset
mod Tests
use vm_memory.Base.{
  ℕ, ◌-◌, ◌/◌, ◌%◌, ◌^◌, ◌||◌, Option, none, some, ltb, ◌==◌, if◌then◌else◌, wrapping_add, Outcome,
  err, ok, ◌>>=◌,
}
use vm_memory.MmapUnix.{FileOffset}
use vm_memory.Volatile.{compute_offset, end_in_bounds, VolatileSlice}
use vm_memory.Volatile

-- What the module asks of Windows: `VirtualAlloc`, `VirtualFree`, `CreateFileMappingA` of a handle and
-- the high and low halves of a size, `MapViewOfFile` of a mapping, the halves of an offset and a
-- size, `CloseHandle`, the last error, and the two error numbers of `libc`.
pub record WinOs (State : Type 0) : Type 0 where
  pub virtual_alloc : ℕ → State → ℕ × State
  pub virtual_free : ℕ → State → ℕ × State
  pub create_file_mapping : ℕ → ℕ → ℕ → State → ℕ × State
  pub map_view_of_file : ℕ → ℕ → ℕ → ℕ → State → ℕ × State
  pub close_handle : ℕ → State → State
  pub last_error : State → ℕ
  pub einval : ℕ
  pub ebadf : ℕ

abbrev pub mm_highest_vad_address : ℕ
mm_highest_vad_address = 0x000007fffffdffff

abbrev pub invalid_handle_value : ℕ
invalid_handle_value = 2 ^ 64 - 1

pub record WinRegion : Type 0 where
  pub addr : ℕ
  pub size : ℕ
  pub file_offset : Option FileOffset

-- `(n >> 32) as u32` and `n as u32`
abbrev pub high_half : ℕ → ℕ
high_half n = n / 2 ^ 32 % 2 ^ 32

abbrev pub low_half : ℕ → ℕ
low_half n = n % 2 ^ 32

module _ {State : Type 0} (os : WinOs State) where
  -- A mapping at the address, or the last error where that is null.
  abbrev pub region_at : ℕ → Option FileOffset → ℕ × State → Outcome ℕ WinRegion × State
  region_at size file_offset (addr, s) =
      if addr == 0
      then (err (os.last_error s), s)
      else (ok (record { addr = addr; size = size; file_offset = file_offset }), s)

  pub new : ℕ → State → Outcome ℕ WinRegion × State
  new size s =
      if size == 0 || ltb mm_highest_vad_address size
      then (err os.einval, s)
      else region_at size none (os.virtual_alloc size s)

  -- `CloseHandle(mapping)` after the view.
  abbrev pub closed : ℕ → ℕ × State → ℕ × State
  closed mapping (addr, s) = (addr, os.close_handle mapping s)

  abbrev pub viewed : FileOffset → ℕ → ℕ × State → Outcome ℕ WinRegion × State
  viewed f_off size (mapping, s) =
      if mapping == 0
      then (err (os.last_error s), s)
      else region_at size (some f_off) (
          closed mapping
            (os.map_view_of_file mapping (high_half f_off.start) (low_half f_off.start) size s))

  pub from_file : FileOffset → ℕ → State → Outcome ℕ WinRegion × State
  from_file f_off size s =
      if f_off.file == invalid_handle_value
      then (err os.ebadf, s)
      else viewed f_off size (os.create_file_mapping f_off.file (high_half size) (low_half size) s)

  -- `Drop`, but for the warning that it prints.
  pub drop_region : WinRegion → State → State
  drop_region r s = (os.virtual_free r.addr s).1

-- `as_slice`, and `as_mut_slice`: all bytes of the mapping.
abbrev pub as_slice : WinRegion → VolatileSlice
as_slice r = record { addr = r.addr; size = r.size }

pub get_slice : WinRegion → ℕ → ℕ → Outcome Volatile.Error VolatileSlice
unfolding compute_offset
get_slice r start count = compute_offset start count >>= end_in_bounds r.size >>= λ end.
    ok (record { addr = wrapping_add r.addr start; size = count })
