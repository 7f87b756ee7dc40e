-- ===== src/Volatile/Streams/Ends.antt =====
-- `read_from` and `write_to` end where the stream stops interrupting, and stay inside the slice.
use vm_memory.Volatile.{
  Error, out_of_bounds, overflow, io_error, compute_offset, VolatileSlice, compute_end_offset,
}
use vm_memory.Volatile.Access.{load_bytes, store_bytes}
use vm_memory.Volatile.Streams.{
  Streamed, after_read, read_rounds, after_write, write_rounds, read_from, write_to,
}
use vm_memory.Base.{
  ℕ, zero, suc, ◌+◌, ◌≤◌, ◌<◌, ◌≡◌, refl, inl, inr, List, arith, ltb, ltb→lt, Bool-cases, length,
  word, Outcome, panic, stuck, err, ok,
}
use vm_memory.CopySlice.{Mem}
use vm_memory.Bytes.{Io, got, interrupted, io_failed, Reader, Writer}

module _ {F : Type 0} (reader : Reader F) where
  -- What `read` gives fits the buffer.
  abbrev pub Fitting : ℕ → Io (List ℕ) → Type 0
  Fitting len (got bs) = length bs ≤ len
  Fitting len interrupted = Unit
  Fitting len (io_failed e) = Unit

  abbrev pub IsReader : Type 0
  IsReader = (len : ℕ) (src : F) → Fitting len (reader.read len src).0

  -- Fewer than `k` interruptions in a row.
  unfoldable pub SettlesAfter : (F → Type 0) → Io (List ℕ) × F → Type 0
  SettlesAfter again (got bs, src) = Unit
  SettlesAfter again (interrupted, src) = again src
  SettlesAfter again (io_failed e, src) = Unit

  unfoldable pub Settles : ℕ → ℕ → F → Type 0
  unfolding SettlesAfter
  Settles zero len src = ⊥
  Settles (suc k) len src = SettlesAfter (Settles k len) (reader.read len src)

  -- What `read_from` gives, on every branch.
  abbrev pub ReadsFrom : VolatileSlice → ℕ → ℕ → Mem → F → Outcome Error ℕ × Streamed F → Type 0
  ReadsFrom s addr count m src (ok n, t) =
      (addr + count ≤ s.size)
      × ((bs : List ℕ) × (length bs ≡ n)
          × (n ≤ count)
          × (t.mem ≡ store_bytes (s.addr + addr) bs m)
          × ((d : F) × (reader.read count d ≡ (got bs, t.io))))
  ReadsFrom s addr count m src (err (io_error e), t) =
      (addr + count ≤ s.size)
      × (t.mem ≡ m)
      × ((d : F) × (reader.read count d ≡ (io_failed e, t.io)))
  ReadsFrom s addr count m src (err (out_of_bounds end), t) =
      (end ≡ addr + count) × (s.size < addr + count) × (t ≡ record { mem = m; io = src })
  ReadsFrom s addr count m src (err (overflow base by), t) =
      (base ≡ addr) × (by ≡ count) × (word ≤ addr + count) × (t ≡ record { mem = m; io = src })
  ReadsFrom s addr count m src (err e, t) = ⊥
  ReadsFrom s addr count m src (panic, t) = ⊥
  ReadsFrom s addr count m src (stuck, t) = ⊥

  module _ (laws : IsReader) (s : VolatileSlice) (addr count : ℕ) (m : Mem)
      (inside : addr + count ≤ s.size) where
    after-ReadsFrom :
        (fuel : ℕ) (first d : F)
        → ((src : F)
            → Settles fuel count src
            → ReadsFrom s addr count m first (read_rounds reader fuel (s.addr + addr) count m src))
        → (r : Io (List ℕ) × F) → reader.read count d ≡ r
        → Fitting count r.0
        → SettlesAfter (Settles fuel count) r
        → ReadsFrom s addr count m first
            (after_read (read_rounds reader fuel (s.addr + addr) count m) (s.addr + addr) m r)
    unfolding SettlesAfter
    after-ReadsFrom fuel first d ih (got bs, src) e fits h =
        (inside, (bs, refl, fits, refl, (d, e)))
    after-ReadsFrom fuel first d ih (interrupted, src) e fits h = ih src h
    after-ReadsFrom fuel first d ih (io_failed x, src) e fits h = (inside, refl, (d, e))

    rounds-ReadsFrom :
        (fuel : ℕ) (first src : F)
        → Settles fuel count src
        → ReadsFrom s addr count m first (read_rounds reader fuel (s.addr + addr) count m src)
    unfolding read_rounds Settles
    rounds-ReadsFrom zero first src h = absurd h
    rounds-ReadsFrom (suc fuel) first src h =
        after-ReadsFrom fuel first src (rounds-ReadsFrom fuel first) (reader.read count src) refl
          (laws count src) h

  -- Where the reader gives no more than the buffer takes and interrupts fewer times in a row than
  -- there are attempts, `read_from` comes back: with the bytes that the reader answered with, at most
  -- `count`, at the address in the slice, and nothing else changed; or with the reader's error, and
  -- nothing changed; and where the range does not lie in the slice, with that error and nothing read.
  pub read_from-ReadsFrom :
      IsReader
      → (s : VolatileSlice) (addr fuel count : ℕ) (m : Mem) (src : F) → Settles fuel count src
      → ReadsFrom s addr count m src (read_from s addr reader fuel src count m)
  unfolding read_from compute_end_offset compute_offset
  read_from-ReadsFrom laws s addr fuel count m src h = elim (Bool-cases (ltb (addr + count) word)) [
    | inl e ↦ elim (Bool-cases (ltb s.size (addr + count))) [
      | inl past ↦ rw (e, past) (refl, ltb→lt _ _ past, refl)
      | inr fits ↦ rw (e, fits) (rounds-ReadsFrom laws s addr count m (ground arith) fuel src src h)
    ]
    | inr e ↦ rw e (refl, refl, ground arith, refl)
  ]

module _ {F : Type 0} (writer : Writer F) where
  -- Fewer than `k` interruptions in a row of the writer.
  unfoldable pub TakesAfter : (F → Type 0) → Io ℕ × F → Type 0
  TakesAfter again (got n, dst) = Unit
  TakesAfter again (interrupted, dst) = again dst
  TakesAfter again (io_failed e, dst) = Unit

  unfoldable pub Takes : ℕ → List ℕ → F → Type 0
  unfolding TakesAfter
  Takes zero src dst = ⊥
  Takes (suc k) src dst = TakesAfter (Takes k src) (writer.write src dst)

  -- What `write_to` gives: the answer of the writer to the bytes of the range, or the reason why the
  -- range is none of the slice.
  abbrev pub WritesTo : VolatileSlice → ℕ → ℕ → Mem → F → Outcome Error ℕ × F → Type 0
  WritesTo s addr count m dst (ok n, dst') =
      (addr + count ≤ s.size)
      × ((d : F) × (writer.write (load_bytes m (s.addr + addr) count) d ≡ (got n, dst')))
  WritesTo s addr count m dst (err (io_error e), dst') =
      (addr + count ≤ s.size)
      × ((d : F) × (writer.write (load_bytes m (s.addr + addr) count) d ≡ (io_failed e, dst')))
  WritesTo s addr count m dst (err (out_of_bounds end), dst') =
      (end ≡ addr + count) × (s.size < addr + count) × (dst' ≡ dst)
  WritesTo s addr count m dst (err (overflow base by), dst') =
      (base ≡ addr) × (by ≡ count) × (word ≤ addr + count) × (dst' ≡ dst)
  WritesTo s addr count m dst (err e, dst') = ⊥
  WritesTo s addr count m dst (panic, dst') = ⊥
  WritesTo s addr count m dst (stuck, dst') = ⊥

  module _ (s : VolatileSlice) (addr count : ℕ) (m : Mem) (inside : addr + count ≤ s.size)
      (first : F) where
    after-WritesTo :
        (fuel : ℕ) (d : F)
        → ((dst : F)
            → Takes fuel (load_bytes m (s.addr + addr) count) dst
            → WritesTo s addr count m first
                (write_rounds writer fuel (load_bytes m (s.addr + addr) count) dst))
        → (r : Io ℕ × F) → writer.write (load_bytes m (s.addr + addr) count) d ≡ r
        → TakesAfter (Takes fuel (load_bytes m (s.addr + addr) count)) r
        → WritesTo s addr count m first
            (after_write (write_rounds writer fuel (load_bytes m (s.addr + addr) count)) r)
    unfolding TakesAfter
    after-WritesTo fuel d ih (got n, dst) e h = (inside, (d, e))
    after-WritesTo fuel d ih (interrupted, dst) e h = ih dst h
    after-WritesTo fuel d ih (io_failed x, dst) e h = (inside, (d, e))

    rounds-WritesTo :
        (fuel : ℕ) (dst : F)
        → Takes fuel (load_bytes m (s.addr + addr) count) dst
        → WritesTo s addr count m first
            (write_rounds writer fuel (load_bytes m (s.addr + addr) count) dst)
    unfolding write_rounds Takes
    rounds-WritesTo zero dst h = absurd h
    rounds-WritesTo (suc fuel) dst h =
        after-WritesTo fuel dst (rounds-WritesTo fuel)
          (writer.write (load_bytes m (s.addr + addr) count) dst) refl h

  -- Where the writer interrupts fewer times in a row than there are attempts, `write_to` comes back:
  -- with what the writer answers to just the bytes of the range, where the range lies in the slice,
  -- and else with the reason, and nothing written.
  write_to-WritesTo :
      (s : VolatileSlice) (addr fuel count : ℕ) (m : Mem) (dst : F)
      → Takes fuel (load_bytes m (s.addr + addr) count) dst
      → WritesTo s addr count m dst (write_to s addr writer fuel dst count m)
  unfolding write_to compute_end_offset compute_offset
  write_to-WritesTo s addr fuel count m dst h = elim (Bool-cases (ltb (addr + count) word)) [
    | inl e ↦ elim (Bool-cases (ltb s.size (addr + count))) [
      | inl past ↦ rw (e, past) (refl, ltb→lt _ _ past, refl)
      | inr fits ↦ rw (e, fits) (rounds-WritesTo s addr count m (ground arith) dst fuel dst h)
    ]
    | inr e ↦ rw e (refl, refl, ground arith, refl)
  ]
