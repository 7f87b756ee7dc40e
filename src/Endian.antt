-- ===== src/Endian.antt =====
-- src/endian.rs: the types `Le16` to `LeSize` and `Be16` to `BeSize`, for a target of either byte
-- order. A type is its number of bytes and its order, a value of it the number in the field.
pub mod Order
mod Tests
use mathlib.Core.List.{reverse}
use vm_memory.Base.{ℕ, zero, suc, ◌+◌, ◌*◌, ◌/◌, ◌%◌, Bool, List, [], ◌∷◌, ◌==◌}

pub data Endian : Type 0 where
  little big : Endian

-- The digits of a number of `n` bytes, the lowest first, and the number of such digits.
abbrev pub digits : ℕ → ℕ → List ℕ
digits zero v = []
digits (suc n) v = v % 256 ∷ digits n (v / 256)

abbrev pub number : List ℕ → ℕ
number [] = 0
number (b ∷ bs) = b + number bs * 256

-- `swap_bytes` of an integer of `n` bytes.
pub swap_bytes : ℕ → ℕ → ℕ
swap_bytes n v = number (reverse (digits n v))

-- `to_le`, `from_le`, `to_be` and `from_be`: the bytes are swapped where the order is not the
-- target's.
pub convert : Endian → Endian → ℕ → ℕ → ℕ
unfolding swap_bytes
convert little little n v = v
convert big big n v = v
convert little big n v = swap_bytes n v
convert big little n v = swap_bytes n v

module _ (target order : Endian) (n : ℕ) where
  -- `From`
  pub from : ℕ → ℕ
  unfolding convert
  from v = convert target order n v

  -- `to_native`, and `Into`
  pub to_native : ℕ → ℕ
  unfolding convert
  to_native field = convert target order n field

  -- `endian == native`
  pub eq_native : ℕ → ℕ → Bool
  unfolding convert
  eq_native field other = field == convert target order n other

  -- `native == endian`
  pub native_eq : ℕ → ℕ → Bool
  unfolding convert
  native_eq self field = convert target order n field == self

-- The bytes of an integer in the memory of the target.
abbrev pub bytes_of : Endian → ℕ → ℕ → List ℕ
bytes_of little n v = digits n v
bytes_of big n v = reverse (digits n v)
