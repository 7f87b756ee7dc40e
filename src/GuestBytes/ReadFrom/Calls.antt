-- ===== src/GuestBytes/ReadFrom/Calls.antt =====
-- `read_from`, one call of a region at a time.
use mathlib.Core.List.{append-nil}
use vm_memory.Base.{
  ℕ, ◌+◌, ◌-◌, ◌≤◌, ◌<◌, min, ◌≡◌, refl, sym, ◌⊎◌, inl, inr, true, false, none, some, List, [],
  arith, leb, ◌==◌, le→leb, Bool-cases, word, Outcome, panic, stuck, err, ok,
}
use vm_memory.Memory.{GuestMemory}
use vm_memory.Memory.Access.{IsGuestMemory, Serves, IsServing, try_access_lem}
use vm_memory.Region.{Error, GuestMemoryRegion}
use vm_memory.Bytes.{Reader, RegionContainer}
use vm_memory.GuestBytes.{max_access_chunk, read_again, read_from_part, read_from}
use vm_memory.GuestBytes.Source.{IsSource, read_again-Answers}
use vm_memory.Volatile.Streams.Ends.{Settles}
use vm_memory.GuestBytes.ReadFrom.{IsWritable, Filled, CopiesIn}
use vm_memory.GuestBytes.ReadFrom.Put.{put_call}

module _ {M R S F : Type 0} (g : GuestMemoryRegion R) (gm : GuestMemory M R)
    (bytes : RegionContainer R S) (m : M) (peek : S → ℕ → ℕ) (Untouched : ℕ → ℕ → S → S → Type 0)
    (reader : Reader F) (taken : F → List ℕ) (addr count : ℕ) (s : S) (src : F) where
  abbrev FilledHere : ℕ → record { mem : S; io : F } → Type 0
  FilledHere = Filled g gm bytes m peek Untouched reader taken addr count s src

  abbrev CopiesHere : Outcome Error ℕ → record { mem : S; io : F } → Type 0
  CopiesHere = CopiesIn g gm bytes m peek Untouched reader taken addr count s src

  module _ (laws : IsGuestMemory g gm m) (u : count < word) (source : IsSource reader taken)
      (writable : IsWritable g gm bytes m peek Untouched) (fuel : ℕ)
      (settles : (len : ℕ) (d : F) → Settles reader fuel len d) where
    chunk_pos :
        (total start size len : ℕ)
        → (total < count) ⊎ ((total ≡ 0) × (count ≡ 0))
        → start < size
        → len ≡ min (size - start) (count - total)
        → 0 < count
        → 0 < min len max_access_chunk
    chunk_pos total start size len (inl more) inside fit pos = omega arith
    chunk_pos total start size len (inr none_asked) inside fit pos = absurd (omega arith)

    fill_call :
        (total start len : ℕ) (r : R) (t : record { mem : S; io : F })
        → FilledHere total t
        → (total < count) ⊎ ((total ≡ 0) × (count ≡ 0))
        → gm.find_region m (addr + total) ≡ some r
        → g.start_addr r + start ≡ addr + total
        → len ≡ min (g.len r - start) (count - total)
        → Serves g gm m laws count addr u
            (read_from_part g gm bytes m fuel reader count)
            FilledHere
            CopiesHere
            total
            len
            (read_from_part g gm bytes m fuel reader count total len start r t)
    unfolding read_from_part
    fill_call total start len r t filled due e at fit =
        let inside = laws.found_in (addr + total) r e in
        let chunk = min len max_access_chunk in
        let narrow : chunk ≤ len = omega arith in
        let due_le : leb total count ≡ true = le→leb total count (omega arith) in
        let in_region : start < g.len r = omega arith in
        let room : chunk ≤ g.len r - start = omega arith in
        let rest : chunk ≤ count - total = omega arith in
        let served =
          put_call g gm bytes m peek Untouched reader taken addr count s src laws u source writable
            fuel settles total start chunk r t filled due e at in_region room rest
            (chunk_pos total start (g.len r) len due in_region fit)
            (read_again reader fuel chunk t.io)
            (read_again-Answers reader taken source fuel chunk t.io (settles chunk t.io)) in
        rw (due_le, writable.no_slice r t.mem) (wider total chunk len narrow _ served)
      where
        wider :
            (total k n : ℕ)
            → k ≤ n
            → (o : Outcome Error ℕ × record { mem : S; io : F })
            → Serves g gm m laws count addr u
                (read_from_part g gm bytes m fuel reader count)
                FilledHere
                CopiesHere
                total
                k
                o
            → Serves g gm m laws count addr u
                (read_from_part g gm bytes m fuel reader count)
                FilledHere
                CopiesHere
                total
                n
                o
        wider total k n p (ok j, t) h = (omega (arith, h.0), h.1, h.2)
        wider total k n p (err x, t) h = h
        wider total k n p (panic, t) h = h
        wider total k n p (stuck, t) h = h

    fill_serving :
        IsServing g gm m laws count addr u
          (read_from_part g gm bytes m fuel reader count)
          FilledHere
          CopiesHere
    fill_serving = record {
      call = fill_call;
      hole = λ total t filled due none_here. elim (Bool-cases (total == 0)) [
        | inl nothing ↦
            let zero_total : total ≡ 0 = ground arith in
            let same : addr + total ≡ addr = omega arith in
            let here : gm.find_region m addr ≡ none = rw (← same) none_here in
            rw nothing
              (total, total, omega arith, omega arith, filled, (refl, zero_total, zero_total, here))
        | inr some_done ↦
            rw some_done
              (total, total, omega arith, omega arith, filled, (refl, refl, inr (inl none_here)))
      ];
      full = λ t filled pos.
          let some_done : (count == 0) ≡ false = ground arith in
          rw some_done (count, count, omega arith, omega arith, filled, (refl, refl, inl refl));
    }

    -- With regions that write a front of what they are given, or fail, and a reader whose interruptions
    -- settle, `read_from` returns or panics. A front of the bytes that it has taken from the source
    -- stands in the guest memory from `addr` on, in order and across the borders of regions, and
    -- nothing else has changed. On success that is all that was taken, and the result their number:
    -- they are `count`, or end where there is no memory or at the end of the source. An error is that of
    -- the source, of an `addr` without memory, or of the last write; a panic is a last write that was
    -- short.
    pub read_from-CopiesIn :
        let (r, t) = read_from g gm bytes m fuel reader addr count (record { mem = s; io = src }) in
        CopiesHere r t
    unfolding read_from
    read_from-CopiesIn =
        try_access_lem g gm m laws count addr u (read_from_part g gm bytes m fuel reader count)
          FilledHere CopiesHere fill_serving (record { mem = s; io = src })
          (
            [],
            sym (append-nil (taken src)),
            refl,
            λ i p. absurd (omega arith),
            λ b held. ground arith,
            writable.untouched_none addr s,
          )
