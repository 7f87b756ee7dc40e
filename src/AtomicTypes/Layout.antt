-- ===== src/AtomicTypes/Layout.antt =====
-- The sizes of the primitive integers, and the atomic types behind them.
use native.Mathlib.Nat.{one-le-pow, one-le-pow}
use vm_memory.Base.{ℕ, ◌^◌, ◌≤◌, ◌<◌, ◌≡◌, refl, arith}
use vm_memory.AtomicTypes.{
  Integer, u8, u16, u32, u64, usize, i8, i16, i32, i64, isize, size_of_integer, AtomicType,
  atomic_i8, atomic_i16, atomic_i32, atomic_i64, atomic_u8, atomic_u16, atomic_u32, atomic_u64,
  atomic_isize, atomic_usize, value_type, atomic_type,
}

-- A value of an integer and of the atomic type behind it are values of the same type, so that `From`
-- and `Into` between them are identities, and each atomic type stands behind one integer.
atomic_type_lem :
    ((t : Integer) → value_type (atomic_type t) ≡ t)
    × ((a : AtomicType) → atomic_type (value_type a) ≡ a)
atomic_type_lem = (there, back)
  where
    there : (t : Integer) → value_type (atomic_type t) ≡ t
    there u8 = refl
    there u16 = refl
    there u32 = refl
    there u64 = refl
    there usize = refl
    there i8 = refl
    there i16 = refl
    there i32 = refl
    there i64 = refl
    there isize = refl

    back : (a : AtomicType) → atomic_type (value_type a) ≡ a
    back atomic_i8 = refl
    back atomic_i16 = refl
    back atomic_i32 = refl
    back atomic_i64 = refl
    back atomic_u8 = refl
    back atomic_u16 = refl
    back atomic_u32 = refl
    back atomic_u64 = refl
    back atomic_isize = refl
    back atomic_usize = refl

-- The size of an integer is 1, 2, 4 or 8.
size_of_integer_lem : (t : Integer) → (k : ℕ) × (k ≤ 3) × (size_of_integer t ≡ 2 ^ k)
size_of_integer_lem u8 = (0, omega arith, refl)
size_of_integer_lem u16 = (1, omega arith, refl)
size_of_integer_lem u32 = (2, omega arith, refl)
size_of_integer_lem u64 = (3, omega arith, refl)
size_of_integer_lem usize = (3, omega arith, refl)
size_of_integer_lem i8 = (0, omega arith, refl)
size_of_integer_lem i16 = (1, omega arith, refl)
size_of_integer_lem i32 = (2, omega arith, refl)
size_of_integer_lem i64 = (3, omega arith, refl)
size_of_integer_lem isize = (3, omega arith, refl)

pub size_of_integer_pos : (t : Integer) → 0 < size_of_integer t
size_of_integer_pos t =
    let (k, le, e) = size_of_integer_lem t in omega (arith, one-le-pow k 2 (omega arith), e)
