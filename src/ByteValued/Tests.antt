-- ===== src/ByteValued/Tests.antt =====
-- Slices of eight bytes as a `u64`.
use vm_memory.Base.{ℕ, ◌%◌, ◌<◌, ◌≡◌, refl, ◌↔◌, none, some, arith}
use vm_memory.ByteValued.{from_slice}
use vm_memory.ByteValued.Slices.{from_slice_iff}

odd_address : from_slice 8 8 0x1004 8 ≡ none
unfolding from_slice
odd_address = refl

empty_type : from_slice 0 1 0x1000 0 ≡ none
unfolding from_slice
empty_type = refl

from_slice_iff_example :
    (from_slice 8 8 0x1008 8 ≡ some 0x1008)
    ↔ ((◌≡◌ {A = ℕ} 8 8) × (0 < 8) × (0x1008 % 8 ≡ 0) × (◌≡◌ {A = ℕ} 0x1008 0x1008))
from_slice_iff_example = from_slice_iff 8 8 0x1008 8 0x1008 (omega arith)
