-- ===== src/ByteValued.antt =====
-- src/bytes.rs: `ByteValued`, and the provided methods of `Bytes`. A type is its size and alignment,
-- a reference to a value of it the address of its bytes in the memory of this process, a value on its
-- own the list of its bytes.
pub mod Slices
mod Tests
use vm_memory.Base.{
  ℕ, ◌-◌, ◌/◌, ◌%◌, ◌&&◌, ◌||◌, Option, none, some, List, ltb, ◌==◌, if◌then◌else◌, Outcome, map_ok,
}
use vm_memory.CopySlice.{Mem}
use vm_memory.Volatile.{VolatileSlice}
use vm_memory.Volatile.Access.{load_bytes}

-- How many bytes come before the first aligned address.
abbrev pub bytes_before : ℕ → ℕ → ℕ
bytes_before align ptr = (align - ptr % align) % align

-- `align_to` of the standard library, of `len` bytes at `ptr`: how many bytes stand before the values
-- of the type, how many values there are, and how many bytes remain. A type of size 0 has no values.
abbrev pub align_to : ℕ → ℕ → ℕ → ℕ → ℕ × ℕ × ℕ
align_to size align ptr len =
    let before = bytes_before align ptr in
    if size == 0 || ltb len before
    then (len, 0, 0)
    else (before, (len - before) / size, (len - before) % size)

-- The pattern `([], [mid], [])`.
abbrev pub only_value : ℕ → ℕ × ℕ × ℕ → Option ℕ
only_value ptr (before, values, behind) =
    if before == 0 && (values == 1 && behind == 0) then some ptr else none

-- `from_slice` and `from_mut_slice`.
unfoldable pub from_slice : ℕ → ℕ → ℕ → ℕ → Option ℕ
from_slice size align ptr len =
    if len == size then only_value ptr (align_to size align ptr len) else none

-- `as_slice`, and `as_mut_slice`: the bytes of the value at an address.
abbrev pub as_slice : ℕ → Mem → ℕ → List ℕ
as_slice size m self = load_bytes m self size

pub as_bytes : ℕ → ℕ → VolatileSlice
as_bytes size self = record { addr = self; size = size }

-- `write_slice` and `read_slice` of a container `Bytes<A>`; a buffer that is filled comes back.
pub record Container (A E S : Type 0) : Type 0 where
  pub write_slice : List ℕ → A → S → Outcome E (Unit {0}) × S
  pub read_slice : List ℕ → A → S → Outcome E (Unit {0}) × List ℕ

module _ {A E S : Type 0} (c : Container A E S) where
  abbrev pub write_obj : List ℕ → A → S → Outcome E (Unit {0}) × S
  write_obj val addr s = c.write_slice val addr s

  -- `initial` is `Default::default()`.
  abbrev pub read_obj : List ℕ → A → S → Outcome E (List ℕ)
  read_obj initial addr s = let (r, result) = c.read_slice initial addr s in map_ok (λ u. result) r
