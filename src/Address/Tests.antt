-- ===== src/Address/Tests.antt =====
-- Concrete addresses.
use vm_memory.Base.{◌^◌, ◌≡◌, refl, some, arith, ok}
use vm_memory.Address.{checked_align_up}
use vm_memory.Address.Align.{RoundsUp, checked_align_up-RoundsUp}

rounded : checked_align_up 0x1001 0x1000 ≡ ok (some 0x2000)
unfolding checked_align_up
rounded = refl

checked_align_up-RoundsUp_example : RoundsUp 12 0x1001 (checked_align_up 0x1001 (2 ^ 12))
checked_align_up-RoundsUp_example = checked_align_up-RoundsUp 12 0x1001 (omega arith) (omega arith)
