-- ===== src/Base/Word.antt =====
-- Arithmetic of `u64` and of `usize` on a 64-bit target: plain `+` and `-` wrap, as in a release
-- build, and the standard library's checked and overflowing variants.
use Prim.Native.Nat.{ℕ, ◌+◌, ◌-◌, ◌*◌, ◌^◌, ◌%◌}
use mathlib.Core.Bool.{Bool}
use mathlib.Core.Option.{Option, none, some}
use vm_memory.Base.Tests.{ltb, leb, if◌then◌else◌}

abbrev pub word : ℕ
word = 2 ^ 64

abbrev pub wrapping_add : ℕ → ℕ → ℕ
wrapping_add a b = (a + b) % word

abbrev pub wrapping_sub : ℕ → ℕ → ℕ
wrapping_sub a b = (a + word - b) % word

abbrev pub wrapping_mul : ℕ → ℕ → ℕ
wrapping_mul a b = (a * b) % word

abbrev pub add_checked : ℕ → ℕ → Option ℕ
add_checked a b = if ltb (a + b) word then some (a + b) else none

abbrev pub sub_checked : ℕ → ℕ → Option ℕ
sub_checked a b = if leb b a then some (a - b) else none

abbrev pub add_overflowing : ℕ → ℕ → ℕ × Bool
add_overflowing a b = (wrapping_add a b, leb word (a + b))

abbrev pub sub_overflowing : ℕ → ℕ → ℕ × Bool
sub_overflowing a b = (wrapping_sub a b, ltb a b)

-- `!a` on 64 bits.
abbrev pub complement : ℕ → ℕ
complement a = word - 1 - a
