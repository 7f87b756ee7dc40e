-- ===== src/Volatile/Tests.antt =====
-- Concrete inputs for `copy_slice` and the slices.
use vm_memory.Base.{
  ℕ, ◌+◌, ◌%◌, ◌^◌, ◌≤◌, ◌<◌, min, ◌≡◌, refl, ◌⊎◌, inl, inr, List, [], ◌∷◌, arith, word, err, ok,
}
use vm_memory.CopySlice.{Mem, move_bytes, copy_slice}
use vm_memory.CopySlice.Correct.{copy_slice_lem}
use vm_memory.Volatile.{
  misaligned, compute_offset, VolatileSlice, VolatileArrayRef, compute_end_offset, get_slice,
  check_alignment, split_at, subslice, get_atomic_ref,
}
use vm_memory.Volatile.Access.{
  store_bytes, array_copy_to, array_copy_from, write, write_slice, read_slice, store,
}
use vm_memory.Volatile.Bounds.{Cuts, cuts_lem, Splits, split_at-Splits}
use vm_memory.Volatile.ReadWrite.{
  AreSeparate, write_inside, Writes, write_slice-Writes, read_slice-write_slice,
}
use vm_memory.Volatile.Array.{array_copy_to-array_copy_from}
use vm_memory.Volatile.Elements.{slice_get_array, TakesArray, get_array_ref-TakesArray}
use vm_memory.Volatile.Atomic.{Stores, store-Stores}

abbrev counting : Mem
counting a = a % 256

-- 39 bytes at 16.
abbrev area : VolatileSlice
area = record { addr = 16; size = 39 }

copy_slice_lem_example :
    copy_slice 16 7 35 9 counting ≡ ok (min 9 7, move_bytes 16 35 (min 9 7) counting)
copy_slice_lem_example =
    copy_slice_lem 16 7 35 9 counting (omega arith) (omega arith) (omega arith) (omega arith)
      (inr (omega arith))

cuts_lem_example : Cuts area 8 31 (get_slice area 8 31) × Cuts area 8 31 (subslice area 8 31)
cuts_lem_example = cuts_lem area 8 31 (omega arith)

split_at-Splits_example : Splits area 30 (split_at area 30)
split_at-Splits_example = split_at-Splits area 30 (omega arith)

from_separate : AreSeparate area 100 4
from_separate = (omega arith, omega arith, omega arith, omega arith, inl (omega arith))

to_separate : AreSeparate area 200 4
to_separate = (omega arith, omega arith, omega arith, omega arith, inl (omega arith))

written : write_slice area 100 4 5 counting ≡ ok (move_bytes 21 100 4 counting)
unfolding write_slice write
written = rw (write_inside area 100 4 5 counting from_separate (omega arith)) refl

write_slice-Writes_example : Writes area 100 4 5 counting (write_slice area 100 4 5 counting)
write_slice-Writes_example = write_slice-Writes area 100 4 5 counting from_separate

read_slice-write_slice_example :
    (final : Mem) × (read_slice area 200 4 5 (move_bytes 21 100 4 counting) ≡ ok final)
    × ((i : ℕ) → i < 4 → final (200 + i) ≡ counting (100 + i))
read_slice-write_slice_example =
    read_slice-write_slice area 100 200 4 5 counting (move_bytes 21 100 4 counting) from_separate
      to_separate written

-- An array that is shorter than the buffer.
abbrev one : VolatileArrayRef
one = record { addr = 32; nelem = 1 }

abbrev two_values : List (List ℕ)
two_values = (1 ∷ 2 ∷ 3 ∷ 4 ∷ []) ∷ (5 ∷ 6 ∷ 7 ∷ 8 ∷ []) ∷ []

array_copy_to-array_copy_from_example :
    (array_copy_to 4 one 2 (array_copy_from 4 one two_values counting)
      ≡ (1, (1 ∷ 2 ∷ 3 ∷ 4 ∷ []) ∷ []))
    × ((x : ℕ) → (x < 32) ⊎ (36 ≤ x) → array_copy_from 4 one two_values counting x ≡ counting x)
array_copy_to-array_copy_from_example =
    array_copy_to-array_copy_from 4 one two_values counting (refl, omega arith, omega arith)

get_array_ref-TakesArray_example : TakesArray 4 area 4 8 (slice_get_array 4 area 4 8)
get_array_ref-TakesArray_example = get_array_ref-TakesArray 4 area 4 8 (omega arith)

abbrev eight : List ℕ
eight = 1 ∷ 2 ∷ 3 ∷ 4 ∷ 5 ∷ 6 ∷ 7 ∷ 8 ∷ []

eight_stored : store 8 8 area eight 8 counting ≡ ok (store_bytes 24 eight counting)
unfolding store get_atomic_ref get_slice compute_end_offset compute_offset check_alignment
eight_stored = refl

between_words : store 8 8 area eight 12 counting ≡ err (misaligned 28 8)
unfolding store get_atomic_ref get_slice compute_end_offset compute_offset check_alignment
between_words = refl

area_ends : 16 + 39 < word
area_ends = omega arith

eight_small : 2 ^ 3 < word
eight_small = omega arith

store-Stores_example :
    Stores 8 3 area area_ends eight_small 8 eight counting refl (store 8 8 area eight 8 counting)
store-Stores_example = store-Stores 8 3 area area_ends eight_small 8 eight counting refl
