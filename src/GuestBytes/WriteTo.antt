-- ===== src/GuestBytes/WriteTo.antt =====
-- `write_to` copies the guest memory out, across the borders of regions.
use mathlib.Core.Path.{subst}
use mathlib.Core.List.{append-nil, append_assoc}
use vm_memory.Base.{
  ℕ, ◌+◌, ◌-◌, ◌≤◌, ◌<◌, min, ◌≡◌, refl, sym, ap, ◌∙◌, ◌⊎◌, inl, inr, Option, none, some, List, [],
  ◌++◌, arith, ltb, ◌==◌, le→leb, ==_iff, Bool-cases, length, get_or, replicate, length-append,
  get_or-append_left, get_or-append_right, word, Outcome, err, ok,
}
use vm_memory.Memory.{GuestMemory}
use vm_memory.Memory.Access.{IsGuestMemory, Serves, IsServing, try_access_lem}
use vm_memory.Region.{Error, invalid_guest_address, GuestMemoryRegion}
use vm_memory.Bytes.{got, Writer, RegionContainer}
use vm_memory.GuestBytes.{max_access_chunk, write_to_part, write_to}

-- What is relied on of a writer: a `write_all` that succeeds appends the bytes to what was written.
pub record IsWriter {F : Type 0} (writer : Writer F) (written : F → List ℕ) : Type 0 where
  pub write_all_got :
      (bs : List ℕ) (dst : F)
      → (writer.write_all bs dst).0 ≡ got tt
      → written (writer.write_all bs dst).1 ≡ written dst ++ bs

-- What is relied on of the regions of a memory in a state `s`: they are no slices, and a read inside
-- a region gives the bytes there, `content r offset`.
pub record IsReadable {M R S : Type 0} (g : GuestMemoryRegion R) (gm : GuestMemory M R)
    (bytes : RegionContainer R S) (m : M) (s : S) (content : R → ℕ → ℕ) : Type 0 where
  pub no_slice : (r : R) → bytes.as_slice r s ≡ none
  pub read_inside :
      (a : ℕ) (r : R) (len caddr : ℕ)
      → gm.find_region m a ≡ some r
      → caddr < g.len r
      → caddr + len ≤ g.len r
      → (out : List ℕ) × (bytes.read r (replicate len 0) caddr s ≡ (ok len, out))
        × (length out ≡ len)
        × ((i : ℕ) → i < len → get_or out i 0 ≡ content r (caddr + i))

-- The byte at a guest address; 0 where there is no memory.
abbrev pub byte_of : {R : Type 0} → GuestMemoryRegion R → (R → ℕ → ℕ) → ℕ → Option R → ℕ
byte_of g content a none = 0
byte_of g content a (some r) = content r (a - g.start_addr r)

module _ {M R S F : Type 0} (g : GuestMemoryRegion R) (gm : GuestMemory M R)
    (bytes : RegionContainer R S) (m : M) (content : R → ℕ → ℕ) (written : F → List ℕ) (s : S)
    (addr count : ℕ) (dst : F) where
  -- The first `n` bytes from `addr` on have been appended to what was written.
  abbrev pub Copied : ℕ → F → Type 0
  Copied n dst' =
      (bs : List ℕ) × (written dst' ≡ written dst ++ bs)
      × (length bs ≡ n)
      × ((i : ℕ)
          → i < n
          → get_or bs i 0 ≡ byte_of g content (addr + i) (gm.find_region m (addr + i)))

  -- How `write_to` ends: all is copied, or what comes before the first address with no memory.
  abbrev pub CopiesOut : Outcome Error ℕ → F → Type 0
  CopiesOut r dst' =
      (n : ℕ) × (n ≤ count)
      × Copied n dst'
      × (((r ≡ ok n) × ((n ≡ count) ⊎ (gm.find_region m (addr + n) ≡ none)))
          ⊎ ((r ≡ err (invalid_guest_address addr)) × (n ≡ 0) × (gm.find_region m addr ≡ none)))

  module _ (laws : IsGuestMemory g gm m) (u : count < word) (writer : Writer F)
      (w : IsWriter writer written)
      (accepts : (bs : List ℕ) (d : F) → (writer.write_all bs d).0 ≡ got tt)
      (readable : IsReadable g gm bytes m s content) (fuel : ℕ) where
    copy_call :
        (total start len : ℕ) (r : R) (d : F)
        → Copied total d
        → (total < count) ⊎ ((total ≡ 0) × (count ≡ 0))
        → gm.find_region m (addr + total) ≡ some r
        → g.start_addr r + start ≡ addr + total
        → len ≡ min (g.len r - start) (count - total)
        → Serves g gm m laws count addr u
            (write_to_part g gm bytes m fuel writer s count)
            Copied
            CopiesOut
            total
            len
            (write_to_part g gm bytes m fuel writer s count total len start r d)
    unfolding write_to_part
    copy_call total start len r d (bs, wr, bl, bc) due e at fit =
        let inside = laws.found_in (addr + total) r e in
        let chunk = min len max_access_chunk in
        let (out, reads, ol, oc) =
          readable.read_inside (addr + total) r chunk start e (omega arith) (omega arith) in
        let d' = (writer.write_all out d).1 in
        let more : Copied (total + chunk) d' = (
          bs ++ out,
          w.write_all_got out d (accepts out d)
              ∙ ap (λ front. front ++ out) wr
              ∙ append_assoc (written dst) bs out,
          omega (arith, length-append bs out),
          λ i p. elim (Bool-cases (ltb i total)) [
            | inl old ↦ get_or-append_left bs out i 0 (ground arith) ∙ bc i (ground arith)
            | inr new ↦
                let here : gm.find_region m (addr + i) ≡ some r =
                  laws.found_whole (addr + total) (addr + i) r e (ground arith) (ground arith) in
                get_or-append_right bs out i 0 (ground arith)
                ∙ oc (i - length bs) (ground arith)
                ∙ rw here (ap (content r) (ground arith))
          ],
        ) in
        rw
          (
            le→leb total count (omega arith),
            readable.no_slice r,
            reads,
            (==_iff chunk chunk).1 refl,
            accepts out d,
          )
          (
            omega arith,
            λ z. (
              total,
              omega arith,
              subst (λ n. Copied n d') (omega arith) more,
              inl (refl, inl (omega arith)),
            ),
            λ pos. more,
          )

    at_start : (total : ℕ) → total ≡ 0 → addr + total ≡ addr
    at_start total z = omega arith

    copy_serving :
        IsServing g gm m laws count addr u
          (write_to_part g gm bytes m fuel writer s count)
          Copied
          CopiesOut
    copy_serving = record {
      call = copy_call;
      hole = λ total d c due none_here. elim (Bool-cases (total == 0)) [
        | inl nothing ↦
            let zero_total : total ≡ 0 = ground arith in
            let here : gm.find_region m addr ≡ none = rw (← at_start total zero_total) none_here in
            (total, omega arith, c, inr (ground arith, zero_total, here))
        | inr some_done ↦ (total, omega arith, c, inl (ground arith, inr none_here))
      ];
      full = λ d c pos. (count, omega arith, c, inl (ground arith, inl refl));
    }

    -- With regions that are read as a whole and a writer that takes all it is given, `write_to`
    -- returns. The writer has got the bytes of the guest memory from `addr` on, in order and across
    -- the borders of regions, `count` of them or up to the first address with no memory, and the
    -- result is their number; it is an error only if `addr` itself has no memory.
    pub write_to-CopiesOut :
        let (r, dst') = write_to g gm bytes m fuel writer s addr count dst in CopiesOut r dst'
    unfolding write_to
    write_to-CopiesOut =
        try_access_lem g gm m laws count addr u (write_to_part g gm bytes m fuel writer s count)
          Copied CopiesOut copy_serving dst
          ([], sym (append-nil (written dst)), refl, λ i p. absurd (omega arith))
