-- ===== src/Endian/Tests.antt =====
-- A big-endian number on a little-endian target.
use vm_memory.Base.{ℕ, ◌≡◌, refl, ◌↔◌, true, arith}
use vm_memory.Endian.{little, big, convert, from, to_native, eq_native, native_eq, bytes_of}
use vm_memory.Endian.Order.{endian_lem}

swapped : from little big 4 0x01020304 ≡ 0x04030201
unfolding from convert
swapped = refl

endian_lem_example :
    (bytes_of little 4 (from little big 4 0x01020304) ≡ bytes_of big 4 0x01020304)
    × (to_native little big 4 (from little big 4 0x01020304) ≡ 0x01020304)
    × ((eq_native little big 4 (from little big 4 0x01020304) 7 ≡ true)
        ↔ (◌≡◌ {A = ℕ} 0x01020304 7))
    × ((native_eq little big 4 7 (from little big 4 0x01020304) ≡ true)
        ↔ (◌≡◌ {A = ℕ} 0x01020304 7))
endian_lem_example = endian_lem little big 4 0x01020304 7 (omega arith) (omega arith)
