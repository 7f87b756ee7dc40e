-- ===== src/RemoteMem/Chunk.antt =====
-- The chunk arithmetic of `process_load` and `process_store`: which addresses they serve.
use vm_memory.Base.{
  ℕ, ◌+◌, ◌-◌, ◌%◌, ◌≤◌, ◌<◌, ◌≡◌, ◌⊎◌, inl, inr, ◌&&◌, List, ◌++◌, arith, ltb, leb, if◌then◌else◌,
  length, get_or, take, drop, length-append, length-take, length-drop, get_or-append_left,
  get_or-append_right, get_or-take, get_or-drop, word, panic, ok,
}
use vm_memory.RemoteMem.{locate, splice}

pub locate_served :
    (len addr : ℕ)
    → addr + 8 < word
    → 0 < addr % 8
    → addr % 8 + len ≤ 8
    → locate len addr ≡ ok (record { offset = addr % 8; aligned = addr - addr % 8 })
unfolding locate
locate_served len addr h p q = ground arith

pub locate_unserved :
    (len addr : ℕ)
    → addr + 8 < word
    → 0 < addr
    → 0 < len
    → (addr % 8 ≡ 0) ⊎ (8 < addr % 8 + len)
    → locate len addr ≡ panic
unfolding locate
locate_unserved len addr h p q (inl aligned) = ground arith
locate_unserved len addr h p q (inr crossing) = ground arith

-- An 8-byte chunk, with the value put in at `offset`, index by index.
pub splice_lem :
    (offset : ℕ) (val bytes : List ℕ) (i : ℕ)
    → length bytes ≡ 8
    → offset + length val ≤ 8
    → (length (splice offset val bytes) ≡ 8)
      × (get_or (splice offset val bytes) i 0 ≡ (
          if leb offset i && ltb i (offset + length val)
          then get_or val (i - offset) 0
          else get_or bytes i 0))
splice_lem offset val bytes i h fit = (
  omega (
    arith,
    length-append (take offset bytes) (val ++ drop (offset + length val) bytes),
    length-append val (drop (offset + length val) bytes),
    length-take offset bytes,
    length-drop (offset + length val) bytes,
  ),
  ground (
    arith,
    length-take offset bytes,
    get_or-append_left (take offset bytes) (val ++ drop (offset + length val) bytes) i 0,
    get_or-append_right (take offset bytes) (val ++ drop (offset + length val) bytes) i 0,
    get_or-append_left val (drop (offset + length val) bytes) (i - offset) 0,
    get_or-append_right val (drop (offset + length val) bytes) (i - offset) 0,
    get_or-take offset bytes i 0,
    get_or-drop (offset + length val) bytes (i - offset - length val) 0,
  ),
)

-- An address whose value lies in one chunk and does not begin it.
pub record IsServed (len addr : ℕ) : Type 0 where
  pub below : addr + 8 < word
  pub inside : 0 < addr % 8
  pub fits : addr % 8 + len ≤ 8
