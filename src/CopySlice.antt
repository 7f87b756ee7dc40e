-- ===== src/CopySlice.antt =====
-- src/volatile_memory.rs: `alignment` and the module `copy_slice_impl`. The memory of this process
-- is a function from addresses to bytes; a `&[u8]` is its address and its length. A volatile access
-- through a misaligned pointer is undefined behaviour and ends in `panic` here, as `unreachable!`
-- does, so that a copy that returns has made aligned accesses only.
pub mod LowBit
pub mod Mask
pub mod Loop
pub mod Correct
use vm_memory.Base.{
  ℕ, zero, suc, ◌+◌, ◌-◌, ◌%◌, min, bit_and, Bool, ◌&&◌, ◌||◌, ltb, leb, ◌==◌, if◌then◌else◌,
  wrapping_add, complement, Outcome, panic, stuck, ok, ◌>>=◌,
}

abbrev pub Mem : Type 0
Mem = ℕ → ℕ

-- `n` bytes from `src` to `dst`, all read before the first is written.
abbrev pub move_bytes : ℕ → ℕ → ℕ → Mem → Mem
move_bytes dst src n m a = if leb dst a && ltb a (dst + n) then m (src + (a - dst)) else m a

unfoldable pub alignment : ℕ → ℕ
alignment addr = bit_and addr (wrapping_add (complement addr) 1)

abbrev pub is_width : ℕ → Bool
is_width w = w == 8 || w == 4 || w == 2 || w == 1

unfoldable pub copy_single : ℕ → ℕ → ℕ → Mem → Outcome ⊥ Mem
copy_single align src_addr dst_addr m =
    if is_width align && (src_addr % align == 0 && dst_addr % align == 0)
    then ok (move_bytes dst_addr src_addr align m)
    else panic

-- The variables that the closure `copy_aligned_slice` captures, and the memory.
pub record Copying : Type 0 where
  pub left : ℕ
  pub src_addr : ℕ
  pub dst_addr : ℕ
  pub mem : Mem

abbrev pub advance : ℕ → Copying → Mem → Copying
advance w c m = record {
  left = c.left - w;
  src_addr = wrapping_add c.src_addr w;
  dst_addr = wrapping_add c.dst_addr w;
  mem = m;
}

-- The `while` of `copy_aligned_slice`; a round takes at least one byte, and `left` rounds and the
-- last test are fuel enough.
unfoldable pub copy_rounds : ℕ → ℕ → ℕ → Copying → Outcome ⊥ Copying
unfolding copy_single
copy_rounds align min_align zero c = stuck
copy_rounds align min_align (suc fuel) c =
    if leb min_align align && leb min_align c.left
    then (copy_single min_align c.src_addr c.dst_addr c.mem
        >>= (λ m. copy_rounds align min_align fuel (advance min_align c m)))
    else ok c

unfoldable pub copy_aligned_slice : ℕ → ℕ → Copying → Outcome ⊥ Copying
copy_aligned_slice align min_align c = copy_rounds align min_align (suc c.left) c

unfoldable pub copy_slice_volatile : ℕ → ℕ → ℕ → ℕ → Mem → Outcome ⊥ (ℕ × Mem)
copy_slice_volatile dst dst_len src src_len m =
    let total = min src_len dst_len in
    let align = min (alignment src) (alignment dst) in
    let start : Copying = record { left = total; src_addr = src; dst_addr = dst; mem = m } in
    copy_aligned_slice align 8 start
    >>= copy_aligned_slice align 4
    >>= copy_aligned_slice align 2
    >>= copy_aligned_slice align 1
    >>= (λ c. ok (total, c.mem))

unfoldable pub copy_slice : ℕ → ℕ → ℕ → ℕ → Mem → Outcome ⊥ (ℕ × Mem)
copy_slice dst dst_len src src_len m =
    let total = min src_len dst_len in
    if leb total 8
    then copy_slice_volatile dst dst_len src src_len m
    else ok (total, move_bytes dst src total m)
