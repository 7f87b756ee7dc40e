-- ===== src/Address.antt =====
-- src/address.rs: the methods of `Address` for the types that `impl_address_ops!` makes over `u64`,
-- `GuestAddress` and `MemoryRegionAddress`. An address is its raw value, a number below 2 ^ 64.
pub mod Align
pub mod Tests
use vm_memory.Base.{
  ℕ, bit_and, bit_or, Bool, Option, some, ◌==◌, if◌then◌else◌, wrapping_add, wrapping_sub,
  add_checked, sub_checked, add_overflowing, sub_overflowing, complement, Outcome, panic, ok,
  and_then,
}

abbrev pub mask : ℕ → ℕ → ℕ
mask addr m = bit_and addr m

abbrev pub checked_offset_from : ℕ → ℕ → Option ℕ
checked_offset_from addr base = sub_checked addr base

abbrev pub unchecked_offset_from : ℕ → ℕ → ℕ
unchecked_offset_from addr base = wrapping_sub addr base

abbrev pub checked_add : ℕ → ℕ → Option ℕ
checked_add addr other = add_checked addr other

abbrev pub overflowing_add : ℕ → ℕ → ℕ × Bool
overflowing_add addr other = add_overflowing addr other

abbrev pub unchecked_add : ℕ → ℕ → ℕ
unchecked_add addr offset = wrapping_add addr offset

abbrev pub checked_sub : ℕ → ℕ → Option ℕ
checked_sub addr other = sub_checked addr other

abbrev pub overflowing_sub : ℕ → ℕ → ℕ × Bool
overflowing_sub addr other = sub_overflowing addr other

abbrev pub unchecked_sub : ℕ → ℕ → ℕ
unchecked_sub addr other = wrapping_sub addr other

-- `Default`, `BitAnd` and `BitOr`.
abbrev pub default : ℕ
default = 0

abbrev pub bitand : ℕ → ℕ → ℕ
bitand addr other = bit_and addr other

abbrev pub bitor : ℕ → ℕ → ℕ
bitor addr other = bit_or addr other

-- `None` is `ok none`; the two assertions panic.
pub checked_align_up : ℕ → ℕ → Outcome (Unit {0}) (Option ℕ)
checked_align_up addr power_of_two =
    let m = wrapping_sub power_of_two 1 in
    if power_of_two == 0
    then panic
    else if bit_and power_of_two m == 0
    then ok (and_then (checked_add addr m) (λ x. some (bitand x (complement m))))
    else panic

pub unchecked_align_up : ℕ → ℕ → ℕ
unchecked_align_up addr power_of_two =
    let m = wrapping_sub power_of_two 1 in bitand (unchecked_add addr m) (complement m)
