-- ===== src/RemoteMem.antt =====
-- src/remote_mem.rs: memory of another process, through `process_vm_readv` and
-- `process_vm_writev`. A `T: Sized + Copy` is the list of its bytes, and `size_of::<T>()` its length.
-- The two system calls are the parameter `ProcessVm`; what is relied on of them is `IsProcessVm`.
pub mod Transfer
pub mod Chunk
pub mod Load
pub mod Served
pub mod Store
pub mod Flat
mod Tests
use vm_memory.Base.{
  ℕ, ◌+◌, ◌-◌, ◌%◌, ◌≤◌, ◌<◌, ◌≡◌, ◌&&◌, List, ◌++◌, ltb, leb, ◌==◌, if◌then◌else◌, length, get_or,
  take, drop, replicate, wrapping_add, wrapping_sub, Outcome, panic, stuck, err, ok, ◌>>=◌, ◌>>◌,
  assert,
}

-- What a system call gives: a value, or an `errno`.
pub data Sys (A : Type 0) : Type 0 where
  done : A → Sys A
  failed : ℕ → Sys A

-- The system calls with one local and one remote iovec. `readv pid base len` gives the bytes that
-- it put into the local buffer, `writev pid base bytes` how many it wrote and the new state.
pub record ProcessVm (State : Type 0) : Type 0 where
  pub readv : ℕ → ℕ → ℕ → State → Sys (List ℕ)
  pub writev : ℕ → ℕ → List ℕ → State → Sys ℕ × State

-- Documented behaviour of process_vm_readv(2): `byte s pid a` is the byte at address `a` of process
-- `pid`. A call may be partial; what was transferred is a prefix; a failed call transfers nothing.
pub record IsProcessVm {State : Type 0} (vm : ProcessVm State) (byte : State → ℕ → ℕ → ℕ)
    : Type 0 where
  pub readv_le :
      (pid base len : ℕ) (s : State) (bs : List ℕ)
      → vm.readv pid base len s ≡ done bs
      → length bs ≤ len
  pub readv_bytes :
      (pid base len : ℕ) (s : State) (bs : List ℕ) (i : ℕ)
      → vm.readv pid base len s ≡ done bs
      → i < length bs
      → get_or bs i 0 ≡ byte s pid (base + i)
  pub writev_le :
      (pid base : ℕ) (bs : List ℕ) (s : State) (n : ℕ)
      → (vm.writev pid base bs s).0 ≡ done n
      → n ≤ length bs
  pub writev_bytes :
      (pid base : ℕ) (bs : List ℕ) (s : State) (n q a : ℕ)
      → (vm.writev pid base bs s).0 ≡ done n
      → byte (vm.writev pid base bs s).1 q a ≡ (
          if q == pid && (leb base a && ltb a (base + n))
          then get_or bs (a - base) 0
          else byte s q a)
  pub writev_failed :
      (pid base : ℕ) (bs : List ℕ) (s : State) (e q a : ℕ)
      → (vm.writev pid base bs s).0 ≡ failed e
      → byte (vm.writev pid base bs s).1 q a ≡ byte s q a

-- `remote_mem::Error`
pub data Error : Type 0 where
  rw_failed : ℕ → Error
  byte_count : ℕ → ℕ → Error

abbrev pub from_sys : {A : Type 0} → Sys A → Outcome Error A
from_sys (done a) = ok a
from_sys (failed e) = err (rw_failed e)

-- A buffer after a read: what was transferred overwrites its front.
abbrev pub filled : List ℕ → Sys (List ℕ) → Outcome Error ℕ × List ℕ
filled buf (done bs) = (ok (length bs), bs ++ drop (length bs) buf)
filled buf (failed e) = (err (rw_failed e), buf)

-- The constant `ALG`.
abbrev pub alg : ℕ
alg = 8

-- `align_offset` of a pointer to bytes: the distance to the next multiple of `align`.
abbrev pub align_offset : ℕ → ℕ → ℕ
align_offset addr align = (align - addr % align) % align

module _ {State : Type 0} (vm : ProcessVm State) (pid : ℕ) where
  -- The second part is the buffer afterwards.
  unfoldable pub process_read_bytes : List ℕ → ℕ → State → Outcome Error ℕ × List ℕ
  process_read_bytes buf addr s = filled buf (vm.readv pid addr (length buf) s)

  -- The buffer is uninitialised memory; its first content is never seen.
  pub process_read : ℕ → ℕ → State → Outcome Error (List ℕ)
  unfolding process_read_bytes
  process_read len addr s =
      let (r, t_slice) = process_read_bytes (replicate len 0) addr s in
      r >>= λ read. if read == len then ok t_slice else err (byte_count read len)

  unfoldable pub process_write_bytes : ℕ → List ℕ → State → Outcome Error ℕ × State
  process_write_bytes addr val s = let (r, s') = vm.writev pid addr val s in (from_sys r, s')

  pub process_write : ℕ → List ℕ → State → Outcome Error (Unit {0}) × State
  unfolding process_write_bytes
  process_write addr val s =
      let (r, s') = process_write_bytes addr val s in
      (
        r >>= λ written.
            if written == length val then ok tt else err (byte_count written (length val)),
        s',
      )

-- The first lines of `process_load` and of `process_store`: the three assertions, the offset of the
-- value in its chunk, and the chunk's address.
pub locate : ℕ → ℕ → Outcome Error (record { offset : ℕ; aligned : ℕ })
locate len addr =
    let offset = alg - align_offset addr alg in
    let aligned = wrapping_sub addr offset in
    assert (leb len alg)
    >> (assert (leb (wrapping_add addr len) (wrapping_add aligned alg))
        >> ok (record { offset = offset; aligned = aligned }))

-- `data[offset .. (offset+len)].copy_from_slice(val_b)`, for a range inside `data`.
abbrev pub splice : ℕ → List ℕ → List ℕ → List ℕ
splice offset val bytes = take offset bytes ++ (val ++ drop (offset + length val) bytes)

module _ {State : Type 0} (vm : ProcessVm State) (pid : ℕ) where
  pub process_load : ℕ → ℕ → State → Outcome Error (List ℕ)
  unfolding locate
  process_load len addr s = locate len addr >>= λ at.
      process_read vm pid alg at.aligned s >>= λ bytes.
      assert (leb (at.offset + len) alg) >> ok (take len (drop at.offset bytes))

  -- `process_store` up to its write: the chunk's address, and its bytes with the value put in.
  pub merge_chunk : ℕ → List ℕ → State → Outcome Error (ℕ × List ℕ)
  unfolding locate
  merge_chunk addr val s = locate (length val) addr >>= λ at.
      process_read vm pid alg at.aligned s >>= λ bytes.
      assert (leb (at.offset + length val) alg) >> ok (at.aligned, splice at.offset val bytes)

  -- The end of `process_store`: `others` is what the other threads of the process do between its
  -- two system calls.
  abbrev pub write_chunk :
      (State → State) → State → Outcome Error (ℕ × List ℕ) → Outcome Error (Unit {0}) × State
  write_chunk others s (ok (aligned, chunk)) = process_write vm pid aligned chunk (others s)
  write_chunk others s (err e) = (err e, s)
  write_chunk others s panic = (panic, s)
  write_chunk others s stuck = (stuck, s)

  pub process_store : (State → State) → ℕ → List ℕ → State → Outcome Error (Unit {0}) × State
  unfolding merge_chunk
  process_store others addr val s = write_chunk others s (merge_chunk addr val s)
