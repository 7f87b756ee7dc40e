-- ===== src/AtomicTypes/Tests.antt =====
-- An array of three `u16` and an empty array.
use vm_memory.Base.{◌≡◌, refl, none, some, arith}
use vm_memory.ByteValued.{from_slice}
use vm_memory.AtomicTypes.{u16, ByteType, array, size_of, align_of}

abbrev three_words : ByteType
three_words = array u16 3 (omega arith)

abbrev no_words : ByteType
no_words = array u16 0 (omega arith)

sizes : (size_of three_words ≡ 6) × (align_of three_words ≡ 2) × (size_of no_words ≡ 0)
sizes = (refl, refl, refl)

aligned_words : from_slice (size_of three_words) (align_of three_words) 0x1002 6 ≡ some 0x1002
unfolding from_slice
aligned_words = refl

odd_words : from_slice (size_of three_words) (align_of three_words) 0x1003 6 ≡ none
unfolding from_slice
odd_words = refl

empty_words : from_slice (size_of no_words) (align_of no_words) 0x1002 0 ≡ none
unfolding from_slice
empty_words = refl
