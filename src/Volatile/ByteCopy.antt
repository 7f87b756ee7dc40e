-- ===== src/Volatile/ByteCopy.antt =====
-- src/volatile_memory.rs: the fast paths of `copy_to` and `copy_from` for types of one byte, of a
-- slice and of an array. The buffer is `buf_len` bytes at `buf` of the same memory.
use vm_memory.Base.{ℕ, ◌≤◌, min, ◌≡◌, ap, inl, inr, arith, Outcome, ok, map_ok}
use vm_memory.CopySlice.{Mem, move_bytes, copy_slice}
use vm_memory.CopySlice.Loop.{Apart}
use vm_memory.CopySlice.Correct.{copy_slice_lem}
use vm_memory.Volatile.{Error, VolatileSlice, VolatileArrayRef, array_to_slice}
use vm_memory.Volatile.Access.{copied}
use vm_memory.Volatile.ReadWrite.{AreSeparate}

unfoldable pub slice_copy_to : VolatileSlice → ℕ → ℕ → Mem → Outcome Error (ℕ × Mem)
unfolding copy_slice
slice_copy_to s buf buf_len m = copied (copy_slice buf buf_len s.addr s.size m)

-- Here the count that `copy_slice` returns is dropped.
abbrev pub only_copied : Outcome Error (ℕ × Mem) → Outcome Error Mem
only_copied o = map_ok (λ (n, m). m) o

unfoldable pub slice_copy_from : VolatileSlice → ℕ → ℕ → Mem → Outcome Error Mem
unfolding copy_slice
slice_copy_from s buf buf_len m = only_copied (copied (copy_slice s.addr s.size buf buf_len m))

-- Those of an array go through `to_slice`.
unfoldable pub array_bytes_copy_to : VolatileArrayRef → ℕ → ℕ → Mem → Outcome Error (ℕ × Mem)
unfolding slice_copy_to array_to_slice
array_bytes_copy_to a buf buf_len m = slice_copy_to (array_to_slice 1 a) buf buf_len m

unfoldable pub array_bytes_copy_from : VolatileArrayRef → ℕ → ℕ → Mem → Outcome Error Mem
unfolding slice_copy_from array_to_slice
array_bytes_copy_from a buf buf_len m = slice_copy_from (array_to_slice 1 a) buf buf_len m

-- The areas that a copy from the beginning of a slice touches.
apart_at :
    (s : VolatileSlice) (buf buf_len n : ℕ)
    → AreSeparate s buf buf_len
    → n ≤ s.size
    → n ≤ buf_len
    → Apart s.addr buf n × Apart buf s.addr n
apart_at s buf buf_len n (_, _, _, _, inl a) p q = (inl (omega arith), inr (omega arith))
apart_at s buf buf_len n (_, _, _, _, inr a) p q = (inr (omega arith), inl (omega arith))

-- Both copy as many bytes as the shorter side has, and change nothing else.
pub slice_copy_lem :
    (s : VolatileSlice) (buf buf_len : ℕ) (m : Mem)
    → AreSeparate s buf buf_len
    → (slice_copy_to s buf buf_len m
        ≡ ok (min s.size buf_len, move_bytes buf s.addr (min s.size buf_len) m))
      × (slice_copy_from s buf buf_len m ≡ ok (move_bytes s.addr buf (min buf_len s.size) m))
unfolding slice_copy_to slice_copy_from
slice_copy_lem s buf buf_len m sep =
    let to = apart_at s buf buf_len (min s.size buf_len) sep (omega arith) (omega arith) in
    let from = apart_at s buf buf_len (min buf_len s.size) sep (omega arith) (omega arith) in
    (
      ap copied (copy_slice_lem buf buf_len s.addr s.size m sep.0 sep.1 sep.2 sep.3 to.0),
      ap (λ o. only_copied (copied o))
          (copy_slice_lem s.addr s.size buf buf_len m sep.1 sep.0 sep.3 sep.2 from.1),
    )
