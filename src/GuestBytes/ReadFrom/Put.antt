-- ===== src/GuestBytes/ReadFrom/Put.antt =====
-- What `read_from` makes of the bytes that one `read` gave.
use mathlib.Core.Path.{subst}
use mathlib.Core.List.{append_assoc}
use vm_memory.Base.{
  ℕ, ◌+◌, ◌-◌, ◌≤◌, ◌<◌, ◌≡◌, refl, sym, ap, ◌∙◌, ◌⊎◌, inl, inr, ◌&&◌, none, some, List, [], ◌++◌,
  arith, ltb, leb, ◌==◌, if◌then◌else◌, ltb→lt, ==_iff, Bool-cases, length, get_or, length-append,
  length-eq-zero, get_or-append_left, get_or-append_right, word, Outcome, panic, stuck, err, ok,
}
use vm_memory.Memory.{GuestMemory}
use vm_memory.Memory.Access.{IsGuestMemory, Serves}
use vm_memory.Region.{Error, io_error, GuestMemoryRegion}
use vm_memory.Bytes.{got, Reader, RegionContainer}
use vm_memory.GuestBytes.{put_read, read_from_part}
use vm_memory.GuestBytes.Source.{IsSource, Answers}
use vm_memory.Volatile.Streams.Ends.{Settles}
use vm_memory.GuestBytes.ReadFrom.{IsWritable, Landed, Filled, CopiesIn}

module _ {M R S F : Type 0} (g : GuestMemoryRegion R) (gm : GuestMemory M R)
    (bytes : RegionContainer R S) (m : M) (peek : S → ℕ → ℕ) (Untouched : ℕ → ℕ → S → S → Type 0)
    (reader : Reader F) (taken : F → List ℕ) (addr count : ℕ) (s : S) (src : F) where
  abbrev FilledHere : ℕ → record { mem : S; io : F } → Type 0
  FilledHere = Filled g gm bytes m peek Untouched reader taken addr count s src

  abbrev LandedHere : ℕ → ℕ → record { mem : S; io : F } → Type 0
  LandedHere = Landed g gm bytes m peek Untouched reader taken addr count s src

  abbrev CopiesHere : Outcome Error ℕ → record { mem : S; io : F } → Type 0
  CopiesHere = CopiesIn g gm bytes m peek Untouched reader taken addr count s src

  module _ (laws : IsGuestMemory g gm m) (u : count < word) (source : IsSource reader taken)
      (writable : IsWritable g gm bytes m peek Untouched) (fuel : ℕ)
      (settles : (len : ℕ) (d : F) → Settles reader fuel len d) where
    -- New bytes behind those that are there.
    joined :
        (total k : ℕ) (bs new : List ℕ) (b old : ℕ) {x from : ℕ}
        → length bs ≡ total
        → from ≡ addr + total
        → x ≡ (if leb addr b && ltb b (addr + total) then get_or bs (b - addr) 0 else old)
        → (if leb from b && ltb b (from + k) then get_or new (b - from) 0 else x) ≡ (
            if leb addr b && ltb b (addr + (total + k))
            then get_or (bs ++ new) (b - addr) 0
            else old)
    joined total k bs new b old long at e =
        ground
          (arith, get_or-append_left bs new (b - addr) 0, get_or-append_right bs new (b - addr) 0)

    -- A front of the bytes that were read, behind those that are there.
    joined_write :
        (total start n : ℕ) (r : R) (t : record { mem : S; io : F }) (new : List ℕ) (src' : F)
        (mem' : S)
        → FilledHere total t
        → gm.find_region m (addr + total) ≡ some r
        → g.start_addr r + start ≡ addr + total
        → start + n ≤ g.len r
        → taken src' ≡ taken t.io ++ new
        → ((b : ℕ)
            → ((q : R) × (gm.find_region m b ≡ some q))
            → peek mem' b ≡ (
                if leb (g.start_addr r + start) b && ltb b (g.start_addr r + start + n)
                then get_or new (b - (g.start_addr r + start)) 0
                else peek t.mem b))
        → Untouched (g.start_addr r + start) n t.mem mem'
        → LandedHere (total + length new) (total + n) (record { mem = mem'; io = src' })
    joined_write total start n r t new src' mem' (bs, took, long, covered, at_bytes, rest) e at fit
          more content same =
        (
          bs ++ new,
          more ∙ ap (λ front. front ++ new) took ∙ append_assoc (taken src) bs new,
          omega (arith, length-append bs new),
          λ i p. elim (Bool-cases (ltb i total)) [
            | inl old ↦ covered i (ltb→lt _ _ old)
            | inr fresh ↦
                (r, laws.found_whole (addr + total) (addr + i) r e (ground arith) (ground arith))
          ],
          λ b held. content b held ∙ joined total n bs new b (peek s b) long at (at_bytes b held),
          writable.untouched_join addr total n s t.mem mem' rest
              (subst (λ from. Untouched from n t.mem mem') at same),
        )

    at_end :
        (total len : ℕ) (new : List ℕ) (src' : F)
        → (total < count) ⊎ ((total ≡ 0) × (count ≡ 0))
        → (0 < count → 0 < len)
        → length new ≡ 0
        → (d : F) → reader.read len d ≡ (got new, src')
        → (total ≡ count)
          ⊎ ((gm.find_region m (addr + total) ≡ none)
              ⊎ ((d : F) × (len : ℕ) × (0 < len) × (reader.read len d ≡ (got [], src'))))
    at_end total len new src' (inr (z, y)) room none_new d ans = inl (z ∙ sym y)
    at_end total len new src' (inl more) room none_new d ans =
        inr (inr (d, len, room (omega arith), rw (← length-eq-zero new none_new) ans))

    -- What a region makes of the bytes that were read.
    pub put_call :
        (total start len : ℕ) (r : R) (t : record { mem : S; io : F })
        → FilledHere total t
        → (total < count) ⊎ ((total ≡ 0) × (count ≡ 0))
        → gm.find_region m (addr + total) ≡ some r
        → g.start_addr r + start ≡ addr + total
        → start < g.len r
        → len ≤ g.len r - start
        → len ≤ count - total
        → (0 < count → 0 < len)
        → (o : Outcome Error (List ℕ) × F) → Answers reader taken len t.io o
        → Serves g gm m laws count addr u
            (read_from_part g gm bytes m fuel reader count)
            FilledHere
            CopiesHere
            total
            len
            (put_read g gm bytes m fuel reader r start t.mem o)
    put_call total start len r t filled due e at inside room rest some_room (ok new, src')
          (fit, more, (d, ans)) =
        let (n, le, result, content, same) =
          writable.write_inside (addr + total) r start new t.mem e inside (omega arith) in
        let mem' = (bytes.write r new start t.mem).1 in
        let t' : record { mem : S; io : F } = record { mem = mem'; io = src' } in
        let landed : LandedHere (total + length new) (total + n) t' =
          joined_write total start n r t new src' mem' filled e at (omega arith) more content
            same in
        elim result [
          | inl wrote ↦ elim (Bool-cases (n == length new)) [
            | inl whole ↦
                let all : n ≡ length new = (==_iff n (length new)).0 whole in
                let filled' : FilledHere (total + length new) t' =
                  subst (λ k. LandedHere (total + length new) (total + k) t') all landed in
                rw (wrote, whole)
                  (
                    fit,
                    λ z. (
                      total,
                      total,
                      omega arith,
                      omega arith,
                      subst (λ k. FilledHere k t') (omega arith) filled',
                      (refl, refl, at_end total len new src' due some_room z d ans),
                    ),
                    λ pos. filled',
                  )
            | inr part ↦
                rw (wrote, part)
                  (
                    total + length new,
                    total + n,
                    omega arith,
                    omega arith,
                    landed,
                    (
                      ground arith,
                      (n, (r, start, new, t.mem, wrote, refl, omega arith, omega arith)),
                    ),
                  )
          ]
          | inr (none_put, (x, failed_write)) ↦ rw failed_write (
            total + length new,
            total + n,
            omega arith,
            omega arith,
            landed,
            (r, start, new, t.mem, failed_write, refl, omega arith, omega arith),
          )
        ]
    put_call total start len r t (bs, took, long, covered, at_bytes, kept) due e at inside room rest
          some_room (err (io_error x), src') (same, (d, ans)) =
        (
          total,
          total,
          omega arith,
          omega arith,
          (bs, same ∙ took, long, covered, at_bytes, kept),
          (refl, (d, len, ans)),
        )
    put_call total start len r t f due e at inside room rest some_room (err x, src') h = absurd h
    put_call total start len r t f due e at inside room rest some_room (panic, src') h = absurd h
    put_call total start len r t f due e at inside room rest some_room (stuck, src') h = absurd h
