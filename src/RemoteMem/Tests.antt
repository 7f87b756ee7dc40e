-- ===== src/RemoteMem/Tests.antt =====
-- Loads and stores in the memory of another process at concrete inputs.
use vm_memory.Base.{
  ℕ, ◌-◌, ◌%◌, ◌≡◌, refl, ap, ◌&&◌, [], ◌∷◌, arith, ltb, leb, ◌==◌, if◌then◌else◌, get_or, panic,
  ok,
}
use vm_memory.RemoteMem.{done, process_read_bytes, process_read, process_load, process_store}
use vm_memory.RemoteMem.Flat.{
  Space, tabulate, overwrite, flat, flat_byte, length-tabulate, flat-IsProcessVm,
}
use vm_memory.RemoteMem.Chunk.{IsServed}
use vm_memory.RemoteMem.Store.{process_store_lem, process_load-process_store}

-- Every byte is the low byte of its address.
abbrev space : Space
space pid a = a % 256

served : IsServed 2 0x1003
served = omega arith

load_run : process_load flat 7 2 0x1003 space ≡ ok (3 ∷ 4 ∷ [])
unfolding process_load process_read process_read_bytes tabulate
load_run = refl

-- A load of 8 bytes from a multiple of 8.
aligned_load_run : process_load flat 7 8 0x1008 space ≡ panic
unfolding process_load
aligned_load_run = refl

chunk : tabulate 0x1000 8 (space 7) ≡ 0 ∷ 1 ∷ 2 ∷ 3 ∷ 4 ∷ 5 ∷ 6 ∷ 7 ∷ []
unfolding tabulate
chunk = refl

-- Another thread writes the byte in front of the value between the two system calls.
abbrev neighbour : Space → Space
neighbour = overwrite 7 0x1002 (99 ∷ [])

-- That byte is lost: it is 2 again after the store.
process_store_lem_example :
    ((process_store flat 7 neighbour 0x1003 (50 ∷ 51 ∷ []) space).0 ≡ ok tt)
    × ((q a : ℕ)
        → flat_byte (process_store flat 7 neighbour 0x1003 (50 ∷ 51 ∷ []) space).1 q a ≡ (
            if q == 7 && (leb 0x1000 a && ltb a 0x1008)
            then (if leb 0x1003 a && ltb a 0x1005
                then get_or (50 ∷ 51 ∷ []) (a - 0x1003) 0
                else space 7 a)
            else neighbour space q a))
process_store_lem_example =
    process_store_lem flat flat_byte flat-IsProcessVm 7 neighbour 0x1003 (50 ∷ 51 ∷ []) space
      (tabulate 0x1000 8 (space 7)) served refl (length-tabulate 0x1000 8 (space 7))
      (λ c n. ap done n)

process_load-process_store_example :
    process_load flat 7 2 0x1003 (process_store flat 7 (λ t. t) 0x1003 (50 ∷ 51 ∷ []) space).1
    ≡ ok (50 ∷ 51 ∷ [])
process_load-process_store_example =
    process_load-process_store flat flat_byte flat-IsProcessVm 7 0x1003 (50 ∷ 51 ∷ []) space
      (tabulate 0x1000 8 (space 7))
      (tabulate 0x1000 8 ((process_store flat 7 (λ t. t) 0x1003 (50 ∷ 51 ∷ []) space).1 7)) served
      refl (length-tabulate 0x1000 8 (space 7)) (λ c n. ap done n) refl
      (length-tabulate 0x1000 8 ((process_store flat 7 (λ t. t) 0x1003 (50 ∷ 51 ∷ []) space).1 7))
