-- ===== src/GuestBytes.antt =====
-- src/guest_memory.rs: `impl<T: GuestMemory> Bytes<GuestAddress> for T`. Each operation runs
-- `try_access` with a callback that hands the part of one region on to that region.
pub mod WriteTo
pub mod Source
pub mod ReadFrom
pub mod Whole
use vm_memory.Base.{
  ℕ, zero, suc, ◌+◌, min, Option, none, some, List, ◌++◌, leb, ◌==◌, if◌then◌else◌, length, take,
  drop, replicate, Outcome, panic, stuck, err, ok, ◌>>=◌, ◌>>◌, ok_or, assert,
}
use vm_memory.Memory.{GuestMemory}
use vm_memory.Region.{Error, invalid_guest_address, io_error, partial_buffer, GuestMemoryRegion}
use vm_memory.Bytes.{Io, got, interrupted, io_failed, Reader, Writer, RegionContainer}
use vm_memory.Memory

-- `MAX_ACCESS_CHUNK`
abbrev pub max_access_chunk : ℕ
max_access_chunk = 4096

-- The end of `write_slice`, `read_slice`, `read_exact_from` and `write_all_to`.
abbrev pub all_or_partial : ℕ → Outcome Error ℕ → Outcome Error (Unit {0})
all_or_partial expected r =
    r >>= λ res. if res == expected then ok tt else err (partial_buffer expected res)

module _ {M R S : Type 0} (g : GuestMemoryRegion R) (gm : GuestMemory M R)
    (bytes : RegionContainer R S) (m : M) where
  -- The slice `buf[offset..]` panics past the end of the buffer.
  unfoldable pub write_part : List ℕ → ℕ → ℕ → ℕ → R → S → Outcome Error ℕ × S
  write_part buf offset count caddr region s =
      if leb offset (length buf) then bytes.write region (drop offset buf) caddr s else (panic, s)

  unfoldable pub write : List ℕ → ℕ → S → Outcome Error ℕ × S
  unfolding write_part
  write buf addr s = Memory.try_access g gm m (length buf) addr (write_part buf) s

  -- The buffer is the state of this loop.
  unfoldable pub read_part : S → ℕ → ℕ → ℕ → R → List ℕ → Outcome Error ℕ × List ℕ
  read_part s offset count caddr region buf =
      if leb offset (length buf)
      then (let (r, rest) = bytes.read region (drop offset buf) caddr s in
          (r, take offset buf ++ rest))
      else (panic, buf)

  unfoldable pub read : List ℕ → ℕ → S → Outcome Error ℕ × List ℕ
  unfolding read_part
  read buf addr s = Memory.try_access g gm m (length buf) addr (read_part s) buf

  unfoldable pub write_slice : List ℕ → ℕ → S → Outcome Error (Unit {0}) × S
  unfolding write
  write_slice buf addr s = let (r, s') = write buf addr s in (all_or_partial (length buf) r, s')

  unfoldable pub read_slice : List ℕ → ℕ → S → Outcome Error (Unit {0}) × List ℕ
  unfolding read
  read_slice buf addr s = let (r, out) = read buf addr s in (all_or_partial (length buf) r, out)

  -- The region and the address in it that `to_region_addr` gives, or the error of the caller.
  pub resolve : ℕ → Outcome Error (R × ℕ)
  resolve addr =
      Memory.to_region_addr g gm m addr >>= λ found. ok_or found (invalid_guest_address addr)

  abbrev pub store_resolved : List ℕ → S → Outcome Error (R × ℕ) → Outcome Error (Unit {0}) × S
  store_resolved val s (ok (region, region_addr)) = bytes.store region val region_addr s
  store_resolved val s (err e) = (err e, s)
  store_resolved val s panic = (panic, s)
  store_resolved val s stuck = (stuck, s)

  pub store : List ℕ → ℕ → S → Outcome Error (Unit {0}) × S
  unfolding resolve
  store val addr s = store_resolved val s (resolve addr)

  pub load : ℕ → ℕ → S → Outcome Error (List ℕ)
  unfolding resolve
  load len addr s = resolve addr >>= λ at. bytes.load at.0 len at.1 s

abbrev pub after_read : {A F : Type 0} → (F → Outcome Error A × F) → Io A × F → Outcome Error A × F
after_read again (got a, src) = (ok a, src)
after_read again (interrupted, src) = again src
after_read again (io_failed e, src) = (err (io_error e), src)

-- The `loop`s that read or write again after `Interrupted`, for at most `fuel` attempts.
unfoldable pub read_again : {F : Type 0} → Reader F → ℕ → ℕ → F → Outcome Error (List ℕ) × F
read_again reader zero len src = (stuck, src)
read_again reader (suc fuel) len src = after_read (read_again reader fuel len) (reader.read len src)

pub write_again : {F : Type 0} → Writer F → ℕ → List ℕ → F → Outcome Error ℕ × F
write_again writer zero buf dst = (stuck, dst)
write_again writer (suc fuel) buf dst =
    after_read (write_again writer fuel buf) (writer.write buf dst)

-- `dst.write_all(&buf).map_err(Error::IOError)?; Ok(len)`; an interruption is retried inside.
abbrev pub all_written : {F : Type 0} → ℕ → Io (Unit {0}) × F → Outcome Error ℕ × F
all_written len (got u, dst) = (ok len, dst)
all_written len (interrupted, dst) = (stuck, dst)
all_written len (io_failed e, dst) = (err (io_error e), dst)

module _ {M R S F : Type 0} (g : GuestMemoryRegion R) (gm : GuestMemory M R)
    (bytes : RegionContainer R S) (m : M) (fuel : ℕ) where
  module _ (reader : Reader F) where
    -- `region.write(&buf[0..bytes_read], caddr)?` with the assertion behind it.
    abbrev pub put_read :
        R → ℕ → S → Outcome Error (List ℕ) × F → Outcome Error ℕ × record { mem : S; io : F }
    put_read region caddr s (ok got_bytes, src) =
        let (r, s') = bytes.write region got_bytes caddr s in
        (
          r >>= λ written. assert (written == length got_bytes) >> ok (length got_bytes),
          record { mem = s'; io = src },
        )
    put_read region caddr s (err e, src) = (err e, record { mem = s; io = src })
    put_read region caddr s (panic, src) = (panic, record { mem = s; io = src })
    put_read region caddr s (stuck, src) = (stuck, record { mem = s; io = src })

    -- The same, where the region is a slice that the reader writes into.
    abbrev pub put_through :
        R → ℕ → S → Outcome Error (List ℕ) × F → Outcome Error ℕ × record { mem : S; io : F }
    put_through region caddr s (ok got_bytes, src) = (
      ok (length got_bytes),
      record { mem = bytes.write_through region caddr got_bytes s; io = src },
    )
    put_through region caddr s (err e, src) = (err e, record { mem = s; io = src })
    put_through region caddr s (panic, src) = (panic, record { mem = s; io = src })
    put_through region caddr s (stuck, src) = (stuck, record { mem = s; io = src })

    abbrev pub read_from_slice :
        Option (List ℕ)
        → ℕ
        → ℕ
        → R
        → record { mem : S; io : F }
        → Outcome Error ℕ × record { mem : S; io : F }
    read_from_slice (some dst) len caddr region t =
        if leb (caddr + len) (length dst)
        then put_through region caddr t.mem (read_again reader fuel len t.io)
        else (panic, t)
    read_from_slice none len caddr region t =
        put_read region caddr t.mem (read_again reader fuel (min len max_access_chunk) t.io)

    pub read_from_part :
        ℕ
        → ℕ
        → ℕ
        → ℕ
        → R
        → record { mem : S; io : F }
        → Outcome Error ℕ × record { mem : S; io : F }
    read_from_part count offset len caddr region t =
        if leb offset count
        then read_from_slice (bytes.as_slice region t.mem) len caddr region t
        else (panic, t)

    unfoldable pub read_from :
        ℕ → ℕ → record { mem : S; io : F } → Outcome Error ℕ × record { mem : S; io : F }
    unfolding read_from_part
    read_from addr count t = Memory.try_access g gm m count addr (read_from_part count) t

    pub read_exact_from :
        ℕ → ℕ → record { mem : S; io : F } → Outcome Error (Unit {0}) × record { mem : S; io : F }
    unfolding read_from
    read_exact_from addr count t =
        let (r, t') = read_from addr count t in (all_or_partial count r, t')

  module _ (writer : Writer F) where
    -- `region.read(&mut buf, caddr)?`, the assertion behind it, and `write_all`.
    abbrev pub pass_on : ℕ → F → Outcome Error ℕ × List ℕ → Outcome Error ℕ × F
    pass_on len dst (ok bytes_read, buf) =
        if bytes_read == len then all_written len (writer.write_all buf dst) else (panic, dst)
    pass_on len dst (err e, buf) = (err e, dst)
    pass_on len dst (panic, buf) = (panic, dst)
    pass_on len dst (stuck, buf) = (stuck, dst)

    abbrev pub write_to_slice : S → Option (List ℕ) → ℕ → ℕ → R → F → Outcome Error ℕ × F
    write_to_slice s (some src) len caddr region dst =
        if leb (caddr + len) (length src)
        then write_again writer fuel (take len (drop caddr src)) dst
        else (panic, dst)
    write_to_slice s none len caddr region dst =
        let chunk = min len max_access_chunk in
        pass_on chunk dst (bytes.read region (replicate chunk 0) caddr s)

    pub write_to_part : S → ℕ → ℕ → ℕ → ℕ → R → F → Outcome Error ℕ × F
    write_to_part s count offset len caddr region dst =
        if leb offset count
        then write_to_slice s (bytes.as_slice region s) len caddr region dst
        else (panic, dst)

    pub write_to : S → ℕ → ℕ → F → Outcome Error ℕ × F
    unfolding write_to_part
    write_to s addr count dst = Memory.try_access g gm m count addr (write_to_part s count) dst

    pub write_all_to : S → ℕ → ℕ → F → Outcome Error (Unit {0}) × F
    unfolding write_to
    write_all_to s addr count dst =
        let (r, dst') = write_to s addr count dst in (all_or_partial count r, dst')
