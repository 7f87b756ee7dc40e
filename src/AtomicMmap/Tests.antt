-- ===== src/AtomicMmap/Tests.antt =====
-- One thread puts a region in, and another takes one out.
use vm_memory.Base.{ℕ, ◌≡◌, refl, Option, none, some, [], ◌∷◌, arith, All}
use vm_memory.AtomicMemory.{memory, act}
use vm_memory.AtomicMemory.Sample.{cell, cell-IsArcSwap}
use vm_memory.AtomicMemory.History.{
  Move, read_map, enter, leave, change_map, Threads, begin_with, move, no_moves, one_more,
}
use vm_memory.Mmap.{GuestMemoryMmap, insert_region, remove_region}
use vm_memory.Mmap.History.{Change, insert, remove, change}
use vm_memory.Mmap.Sample.{high, apart, two_regions, two_regions-IsWellFormed}
use vm_memory.AtomicMmap.{IsChanged, IsSnapshot, Moves-IsChanged}

abbrev or_stay :
    Option (Threads GuestMemoryMmap GuestMemoryMmap Change)
    → Threads GuestMemoryMmap GuestMemoryMmap Change
    → Threads GuestMemoryMmap GuestMemoryMmap Change
or_stay none d = d
or_stay (some e) d = e

after :
    Move Change
    → ℕ
    → Threads GuestMemoryMmap GuestMemoryMmap Change
    → Threads GuestMemoryMmap GuestMemoryMmap Change
unfolding act
after x i d = or_stay (move cell change x i d) d

abbrev put_in : Threads GuestMemoryMmap GuestMemoryMmap Change
put_in =
    after (change_map (insert apart)) 1
      (after read_map 1 (after enter 1 (after read_map 2 (begin_with cell change two_regions))))

abbrev taken_out : Threads GuestMemoryMmap GuestMemoryMmap Change
taken_out =
    after (change_map (remove 0x2000 16)) 2
      (after read_map 2 (after enter 2 (after leave 1 put_in)))

only_two : (memory cell taken_out.system.shared).regions ≡ high ∷ apart ∷ []
unfolding act after insert_region remove_region
only_two = refl

Moves-IsChanged_example :
    IsChanged two_regions
      (insert apart ∷ remove 0x2000 16 ∷ [])
      (memory cell taken_out.system.shared)
    × ((i : ℕ)
        → All
            (IsSnapshot two_regions (insert apart ∷ remove 0x2000 16 ∷ []))
            (taken_out.system.guards i))
unfolding act after
Moves-IsChanged_example =
    Moves-IsChanged cell cell-IsArcSwap two_regions taken_out two_regions-IsWellFormed
      (one_more 2 (change_map (remove 0x2000 16))
        (one_more 2 read_map
          (one_more 2 enter
            (one_more 1 leave
              (one_more 1 (change_map (insert apart))
                (one_more 1 read_map (one_more 1 enter (one_more 2 read_map no_moves refl) refl)
                  refl)
                refl)
              refl)
            refl)
          refl)
        refl)
      (omega arith)
