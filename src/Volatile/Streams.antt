-- ===== src/Volatile/Streams.antt =====
-- src/volatile_memory.rs: `read_from`, `read_exact_from`, `write_to` and `write_all_to` of a
-- `VolatileSlice`. The loops that read or write again after an interruption have their number of
-- attempts as fuel.
pub mod Ends
mod Tests
use vm_memory.Volatile.{Error, io_error, VolatileSlice, compute_end_offset}
use vm_memory.Volatile.Access.{load_bytes, store_bytes}
use vm_memory.Base.{ℕ, zero, suc, ◌+◌, List, length, Outcome, panic, stuck, err, ok}
use vm_memory.CopySlice.{Mem}
use vm_memory.Bytes.{Io, got, interrupted, io_failed, Reader, Writer}

-- `Read::read_exact`: the bytes put into the buffer, and whether they fill it.
pub record ExactReader (F : Type 0) : Type 0 where
  pub read_exact : ℕ → F → record { bytes : List ℕ; result : Io (Unit {0}); io : F }

-- The memory and the reader, as a call leaves them.
pub record Streamed (F : Type 0) : Type 0 where
  pub mem : Mem
  pub io : F

-- `break Ok(n)`, `continue` and `break Err(Error::IOError(e))`.
abbrev pub after_read :
    {F : Type 0}
    → (F → Outcome Error ℕ × Streamed F)
    → ℕ
    → Mem
    → Io (List ℕ) × F
    → Outcome Error ℕ × Streamed F
after_read again dst m (got bs, src) =
    (ok (length bs), record { mem = store_bytes dst bs m; io = src })
after_read again dst m (interrupted, src) = again src
after_read again dst m (io_failed e, src) = (err (io_error e), record { mem = m; io = src })

-- The loop of `read_from` over the `len` bytes at `dst`.
pub read_rounds : {F : Type 0} → Reader F → ℕ → ℕ → ℕ → Mem → F → Outcome Error ℕ × Streamed F
read_rounds reader zero dst len m src = (stuck, record { mem = m; io = src })
read_rounds reader (suc fuel) dst len m src =
    after_read (read_rounds reader fuel dst len m) dst m (reader.read len src)

abbrev pub after_write : {F : Type 0} → (F → Outcome Error ℕ × F) → Io ℕ × F → Outcome Error ℕ × F
after_write again (got n, dst) = (ok n, dst)
after_write again (interrupted, dst) = again dst
after_write again (io_failed e, dst) = (err (io_error e), dst)

-- The loop of `write_to`.
pub write_rounds : {F : Type 0} → Writer F → ℕ → List ℕ → F → Outcome Error ℕ × F
write_rounds writer zero src dst = (stuck, dst)
write_rounds writer (suc fuel) src dst =
    after_write (write_rounds writer fuel src) (writer.write src dst)

-- `let end = self.compute_end_offset(addr, count)?;` before the rest of a method.
abbrev pub in_bounds :
    {X : Type 0} {A : Type 0} → Outcome Error ℕ → X → Outcome Error A × X → Outcome Error A × X
in_bounds (ok end) x rest = rest
in_bounds (err e) x rest = (err e, x)
in_bounds panic x rest = (panic, x)
in_bounds stuck x rest = (stuck, x)

-- An interruption is dealt with inside `read_exact` and `write_all`.
abbrev pub all_done : Io (Unit {0}) → Outcome Error (Unit {0})
all_done (got u) = ok tt
all_done interrupted = stuck
all_done (io_failed e) = err (io_error e)

module _ {F : Type 0} (s : VolatileSlice) (addr : ℕ) where
  pub read_from : Reader F → ℕ → F → ℕ → Mem → Outcome Error ℕ × Streamed F
  unfolding compute_end_offset read_rounds
  read_from reader fuel src count m =
      in_bounds (compute_end_offset s.size addr count) (record { mem = m; io = src })
        (read_rounds reader fuel (s.addr + addr) count m src)

  pub read_exact_from : ExactReader F → F → ℕ → Mem → Outcome Error (Unit {0}) × Streamed F
  unfolding compute_end_offset
  read_exact_from reader src count m =
      let r = reader.read_exact count src in
      in_bounds (compute_end_offset s.size addr count) (record { mem = m; io = src })
        (all_done r.result, record { mem = store_bytes (s.addr + addr) r.bytes m; io = r.io })

  pub write_to : Writer F → ℕ → F → ℕ → Mem → Outcome Error ℕ × F
  unfolding compute_end_offset write_rounds load_bytes
  write_to writer fuel dst count m =
      in_bounds (compute_end_offset s.size addr count) dst
        (write_rounds writer fuel (load_bytes m (s.addr + addr) count) dst)

  pub write_all_to : Writer F → F → ℕ → Mem → Outcome Error (Unit {0}) × F
  unfolding compute_end_offset load_bytes
  write_all_to writer dst count m =
      let (r, dst') = writer.write_all (load_bytes m (s.addr + addr) count) dst in
      in_bounds (compute_end_offset s.size addr count) dst (all_done r, dst')
