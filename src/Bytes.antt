-- ===== src/Bytes.antt =====
-- src/bytes.rs: the interface `Bytes` of a container of bytes, as far as the container of the
-- regions needs it, and the readers and writers of the standard library that it is used with.
use vm_memory.Base.{ℕ, Option, List, Outcome}
use vm_memory.Region.{Error}

-- What `Read::read` and `Write::write_all` give back, as far as the callers tell it apart.
pub data Io (A : Type 0) : Type 0 where
  got : A → Io A
  interrupted : Io A
  io_failed : ℕ → Io A

-- `F: Read`. `read len` puts at most `len` bytes into the buffer; these are what it gives.
pub record Reader (F : Type 0) : Type 0 where
  pub read : ℕ → F → Io (List ℕ) × F

-- `F: Write`.
pub record Writer (F : Type 0) : Type 0 where
  pub write : List ℕ → F → Io ℕ × F
  pub write_all : List ℕ → F → Io (Unit {0}) × F

-- `Bytes<MemoryRegionAddress, E = Error>` for a region `R`, over a state that the calls change, with
-- `as_slice` and `as_mut_slice` of `GuestMemoryRegion`: the bytes of the region if it can be seen as
-- a slice, and a write through that slice. A buffer that is read into comes back as the second part.
pub record RegionContainer (R S : Type 0) : Type 0 where
  pub write : R → List ℕ → ℕ → S → Outcome Error ℕ × S
  pub read : R → List ℕ → ℕ → S → Outcome Error ℕ × List ℕ
  pub store : R → List ℕ → ℕ → S → Outcome Error (Unit {0}) × S
  pub load : R → ℕ → ℕ → S → Outcome Error (List ℕ)
  pub as_slice : R → S → Option (List ℕ)
  pub write_through : R → ℕ → List ℕ → S → S
