-- ===== src/MmapUnix/Slice.antt =====
-- src/mmap_unix.rs and src/mmap_windows.rs: the bytes of a mapping as a slice of this process. Both
-- modules have the same methods.
use vm_memory.Base.{ℕ, ◌+◌, ◌<◌, word, wrapping_add, Outcome, ok, ◌>>=◌}
use vm_memory.MmapUnix.{MmapRegion}
use vm_memory.Volatile.Bounds.{Cuts, cuts_lem}
use vm_memory.Volatile.{compute_end_offset, compute_offset, end_in_bounds, VolatileSlice}
use vm_memory.Volatile

-- `as_slice`, and `as_mut_slice`: all bytes of the mapping.
abbrev pub as_slice : MmapRegion → VolatileSlice
as_slice r = record { addr = r.addr; size = r.size }

pub get_slice : MmapRegion → ℕ → ℕ → Outcome Volatile.Error VolatileSlice
unfolding compute_offset
get_slice r start count = compute_offset start count >>= end_in_bounds r.size >>= λ end.
    ok (record { addr = wrapping_add r.addr start; size = count })

-- For a mapping that ends below 2 ^ 64, a slice of it is one of the `VolatileSlice` of all of its
-- bytes: it lies inside the mapping, and what does not fit is refused.
get_slice-Cuts :
    (r : MmapRegion) (start count : ℕ)
    → r.addr + r.size < word
    → Cuts (as_slice r) start count (get_slice r start count)
unfolding get_slice Volatile.get_slice compute_end_offset compute_offset
get_slice-Cuts r start count fits = (cuts_lem (as_slice r) start count fits).0
