-- ===== src/AtomicTypes.antt =====
-- src/atomic_integer.rs: `AtomicInteger` and the types that implement it, and of src/bytes.rs the
-- types that implement `ByteValued` and `AtomicAccess`, on a 64-bit target. The atomic types of the
-- standard library are a parameter.
pub mod Layout
mod Tests
use vm_memory.Base.{ℕ, ◌*◌, ◌≤◌}

-- The primitive integers that `byte_valued_type!` names.
pub data Integer : Type 0 where
  u8 u16 u32 u64 usize i8 i16 i32 i64 isize : Integer

-- `size_of`, which is the alignment as well.
abbrev pub size_of_integer : Integer → ℕ
size_of_integer u8 = 1
size_of_integer u16 = 2
size_of_integer u32 = 4
size_of_integer u64 = 8
size_of_integer usize = 8
size_of_integer i8 = 1
size_of_integer i16 = 2
size_of_integer i32 = 4
size_of_integer i64 = 8
size_of_integer isize = 8

-- The types that `byte_valued_type!` and `byte_valued_array!` make `ByteValued`.
pub data ByteType : Type 0 where
  integer : Integer → ByteType
  array : Integer → (n : ℕ) → n ≤ 32 → ByteType

abbrev pub size_of : ByteType → ℕ
size_of (integer t) = size_of_integer t
size_of (array t n fits) = n * size_of_integer t

abbrev pub align_of : ByteType → ℕ
align_of (integer t) = size_of_integer t
align_of (array t n fits) = size_of_integer t

-- The types that `impl_atomic_integer_ops!` is applied to.
pub data AtomicType : Type 0 where
  atomic_i8 atomic_i16 atomic_i32 atomic_i64 atomic_u8 atomic_u16 : AtomicType
  atomic_u32 atomic_u64 atomic_isize atomic_usize : AtomicType

-- `type V`
abbrev pub value_type : AtomicType → Integer
value_type atomic_i8 = i8
value_type atomic_i16 = i16
value_type atomic_i32 = i32
value_type atomic_i64 = i64
value_type atomic_u8 = u8
value_type atomic_u16 = u16
value_type atomic_u32 = u32
value_type atomic_u64 = u64
value_type atomic_isize = isize
value_type atomic_usize = usize

-- `type A` of `AtomicAccess`
abbrev pub atomic_type : Integer → AtomicType
atomic_type i8 = atomic_i8
atomic_type i16 = atomic_i16
atomic_type i32 = atomic_i32
atomic_type i64 = atomic_i64
atomic_type u8 = atomic_u8
atomic_type u16 = atomic_u16
atomic_type u32 = atomic_u32
atomic_type u64 = atomic_u64
atomic_type isize = atomic_isize
atomic_type usize = atomic_usize

-- `AtomicInteger`, for cells `A` that hold values `V`; a store gives the cell afterwards.
pub record AtomicInteger (A V Ordering : Type 0) : Type 0 where
  pub new : V → A
  pub load : A → Ordering → V
  pub store : A → V → Ordering → A

-- The methods of an atomic type of the standard library.
pub record StdAtomic (A V Ordering : Type 0) : Type 0 where
  pub new : V → A
  pub load : A → Ordering → V
  pub store : A → V → Ordering → A

-- `impl_atomic_integer_ops!`
pub integer_ops : {A V Ordering : Type 0} → StdAtomic A V Ordering → AtomicInteger A V Ordering
integer_ops std = record {
  new = λ v. std.new v;
  load = λ self order. std.load self order;
  store = λ self val order. std.store self val order;
}
