-- ===== src/Volatile/ReadWrite.antt =====
-- `Bytes<usize>` of a `VolatileSlice`: what a buffer and the slice hold afterwards.
use vm_memory.Base.{
  ℕ, ◌+◌, ◌-◌, ◌≤◌, ◌<◌, min, ◌≡◌, refl, ◌⊎◌, inl, inr, true, false, arith, ltb, leb, ◌==◌, ltb→lt,
  le→leb, Bool-cases, word, Outcome, panic, stuck, err, ok,
}
use vm_memory.CopySlice.{Mem, move_bytes}
use vm_memory.CopySlice.Loop.{Apart}
use vm_memory.CopySlice.Correct.{copy_slice_lem}
use vm_memory.Volatile.{Error, out_of_bounds, partial_buffer, VolatileSlice}
use vm_memory.Volatile.Access.{write, read, whole, write_slice, read_slice}
use mathlib.Core.Path.{subst}

-- A slice and a buffer of the same memory, neither at address 0 nor at its end, that do not overlap.
abbrev pub AreSeparate : VolatileSlice → ℕ → ℕ → Type 0
AreSeparate s buf buf_len =
    (0 < s.addr)
    × (0 < buf)
    × (s.addr + s.size < word)
    × (buf + buf_len < word)
    × ((s.addr + s.size ≤ buf) ⊎ (buf + buf_len ≤ s.addr))

apart_from :
    (s : VolatileSlice) (buf buf_len addr n : ℕ)
    → AreSeparate s buf buf_len
    → addr + n ≤ s.size
    → n ≤ buf_len
    → Apart buf (s.addr + addr) n
apart_from s buf buf_len addr n (_, _, _, _, inl a) p q = inr (omega arith)
apart_from s buf buf_len addr n (_, _, _, _, inr a) p q = inl (omega arith)

swapped : (a b n : ℕ) → Apart a b n → Apart b a n
swapped a b n (inl h) = inr h
swapped a b n (inr h) = inl h

-- Inside the slice, `write` copies as many bytes as the buffer has and the slice has behind `addr`,
-- and returns that number.
pub write_inside :
    (s : VolatileSlice) (buf buf_len addr : ℕ) (m : Mem)
    → AreSeparate s buf buf_len
    → addr < s.size
    → write s buf buf_len addr m
      ≡ ok (
        min buf_len (s.size - addr),
        move_bytes (s.addr + addr) buf (min buf_len (s.size - addr)) m,
      )
unfolding write
write_inside s buf buf_len addr m sep h =
    let inside : leb s.size addr ≡ false = ground arith in
    let n = min buf_len (s.size - addr) in
    rw
      (
        inside,
        copy_slice_lem (s.addr + addr) (s.size - addr) buf buf_len m sep.1 (omega (arith, sep.0))
            sep.3 (omega (arith, sep.2))
            (apart_from s buf buf_len addr n sep (omega arith) (omega arith)),
      )
      refl

pub read_inside :
    (s : VolatileSlice) (buf buf_len addr : ℕ) (m : Mem)
    → AreSeparate s buf buf_len
    → addr < s.size
    → read s buf buf_len addr m
      ≡ ok (
        min (s.size - addr) buf_len,
        move_bytes buf (s.addr + addr) (min (s.size - addr) buf_len) m,
      )
unfolding read
read_inside s buf buf_len addr m sep h =
    let inside : leb s.size addr ≡ false = ground arith in
    let n = min (s.size - addr) buf_len in
    rw
      (
        inside,
        copy_slice_lem buf buf_len (s.addr + addr) (s.size - addr) m (omega (arith, sep.0)) sep.1
            (omega (arith, sep.2)) sep.3
            (swapped buf (s.addr + addr) n
              (apart_from s buf buf_len addr n sep (omega arith) (omega arith))),
      )
      refl

-- What `write_slice` gives, on every branch.
abbrev pub Writes : VolatileSlice → ℕ → ℕ → ℕ → Mem → Outcome Error Mem → Type 0
Writes s buf buf_len addr m (ok after) =
    (addr + buf_len ≤ s.size) × (addr < s.size) × (after ≡ move_bytes (s.addr + addr) buf buf_len m)
Writes s buf buf_len addr m (err e) =
    ((e ≡ out_of_bounds addr) × (s.size ≤ addr))
    ⊎ ((e ≡ partial_buffer buf_len (s.size - addr)) × (addr < s.size) × (s.size < addr + buf_len))
Writes s buf buf_len addr m panic = ⊥
Writes s buf buf_len addr m stuck = ⊥

outside :
    (s : VolatileSlice) (buf buf_len addr : ℕ) (m : Mem)
    → s.size ≤ addr
    → write s buf buf_len addr m ≡ err (out_of_bounds addr)
unfolding write
outside s buf buf_len addr m h = rw (le→leb _ _ h) refl

fitted :
    (s : VolatileSlice) (buf buf_len addr : ℕ) (m : Mem)
    → addr < s.size
    → Writes s buf buf_len addr m (
        whole buf_len (
          min buf_len (s.size - addr),
          move_bytes (s.addr + addr) buf (min buf_len (s.size - addr)) m,
        ))
fitted s buf buf_len addr m inside = elim (Bool-cases (leb (addr + buf_len) s.size)) [
  | inl e ↦
      let all : min buf_len (s.size - addr) ≡ buf_len = ground arith in
      let yes : (buf_len == buf_len) ≡ true = ground arith in
      rw (all, yes) (ground arith, inside, refl)
  | inr e ↦
      let part : min buf_len (s.size - addr) ≡ s.size - addr = ground arith in
      let no : (s.size - addr == buf_len) ≡ false = ground arith in
      rw (part, no) (inr (refl, inside, ground arith))
]

-- For a slice and a buffer that do not overlap, neither at address 0 and both ending below 2 ^ 64,
-- `write_slice` succeeds exactly where the whole buffer
-- fits behind `addr` inside the slice, and copies it there and changes nothing else; else it reports
-- an address that is out of bounds, or how many bytes of the buffer fitted.
pub write_slice-Writes :
    (s : VolatileSlice) (buf buf_len addr : ℕ) (m : Mem)
    → AreSeparate s buf buf_len
    → Writes s buf buf_len addr m (write_slice s buf buf_len addr m)
unfolding write_slice
write_slice-Writes s buf buf_len addr m sep = elim (Bool-cases (ltb addr s.size)) [
  | inl e ↦
      let inside : addr < s.size = ltb→lt _ _ e in
      rw (write_inside s buf buf_len addr m sep inside) (fitted s buf buf_len addr m inside)
  | inr e ↦ rw (outside s buf buf_len addr m (ground arith)) (inl (refl, ground arith))
]

read_whole :
    (s : VolatileSlice) (buf buf_len addr : ℕ) (m : Mem)
    → AreSeparate s buf buf_len
    → addr < s.size
    → addr + buf_len ≤ s.size
    → read_slice s buf buf_len addr m ≡ ok (move_bytes buf (s.addr + addr) buf_len m)
unfolding read_slice
read_whole s buf buf_len addr m sep inside h =
    let all : min (s.size - addr) buf_len ≡ buf_len = omega arith in
    let yes : (buf_len == buf_len) ≡ true = ground arith in
    rw (read_inside s buf buf_len addr m sep inside, all, yes) refl

twice :
    (at from to len i : ℕ) (m : Mem)
    → i < len
    → move_bytes to at len (move_bytes at from len m) (to + i) ≡ m (from + i)
twice at from to len i m h = ground arith

-- Where `write_slice` of one buffer has succeeded, `read_slice` at the same address into another of
-- that length succeeds and gives the bytes of the first one; each buffer and the slice do not overlap,
-- none is at address 0, and all end below 2 ^ 64.
pub read_slice-write_slice :
    (s : VolatileSlice) (from to len addr : ℕ) (m after : Mem)
    → AreSeparate s from len
    → AreSeparate s to len
    → write_slice s from len addr m ≡ ok after
    → (final : Mem) × (read_slice s to len addr after ≡ ok final)
      × ((i : ℕ) → i < len → final (to + i) ≡ m (from + i))
read_slice-write_slice s from to len addr m after p q e =
    let (fits, inside, moved) =
      subst (Writes s from len addr m) e (write_slice-Writes s from len addr m p) in
    (
      move_bytes to (s.addr + addr) len after,
      read_whole s to len addr after q inside fits,
      λ i h. rw moved (twice (s.addr + addr) from to len i m h),
    )
