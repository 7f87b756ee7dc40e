-- ===== src/MmapUnix/Build.antt =====
-- What the constructors of `MmapRegion` give.
use vm_memory.Base.{
  ℕ, zero, suc, ◌+◌, ◌≤◌, ◌<◌, bit_and, bit_or, ◌≡◌, refl, sym, ◌≢◌, ◌⊎◌, inl, inr, true, false,
  Option, none, some, arith, ltb, ◌==◌, ltb→lt, Bool-cases, word, Outcome, panic, stuck, err, ok,
  ◌>>◌,
}
use vm_memory.MmapUnix.{
  FileOffset, Error, invalid_offset_length, invalid_pointer, invalid_size, map_fixed,
  mapping_overlap, mapping_past_eof, mmap_failed, MmapRegion, Os, past_eof, check_file_offset,
  backing, mapped, map_backed, build, new, from_file,
}
use vm_memory.RemoteMem.{Sys, done, failed}
use mathlib.Core.Path.{subst}

module _ {State : Type 0} (os : Os State) where
  -- The file range of a mapping does not wrap and ends inside the file, where its length is known.
  abbrev pub IsBacked : Option FileOffset → ℕ → State → Type 0
  IsBacked none size s = Unit
  IsBacked (some f) size s =
      (f.start + size < word) × ((end : ℕ) → os.file_len f.file s ≡ some end → f.start + size ≤ end)

  abbrev pub Wraps : Option FileOffset → ℕ → Type 0
  Wraps none size = ⊥
  Wraps (some f) size = word ≤ f.start + size

  abbrev pub EndsPastFile : Option FileOffset → ℕ → State → Type 0
  EndsPastFile none size s = ⊥
  EndsPastFile (some f) size s =
      (end : ℕ) × (os.file_len f.file s ≡ some end) × (end < f.start + size)

  -- The descriptor and the offset that a mapping is asked for with: none and 0 for an anonymous one.
  abbrev pub fd_of : Option FileOffset → Option ℕ
  fd_of none = none
  fd_of (some f) = some f.file

  abbrev pub start_of : Option FileOffset → ℕ
  start_of none = 0
  start_of (some f) = f.start

  -- The reason behind each error that `build` returns before `mmap`; nothing has changed.
  abbrev pub Explains : Option FileOffset → ℕ → ℕ → State → State → Error → Type 0
  Explains f size flags s s' (mmap_failed e) = ⊥
  Explains f size flags s s' invalid_offset_length = (s' ≡ s) × Wraps f size
  Explains f size flags s s' mapping_past_eof = (s' ≡ s) × EndsPastFile f size s
  Explains f size flags s s' map_fixed = (s' ≡ s) × (bit_and flags os.map_fixed_bit ≢ 0)
  Explains f size flags s s' invalid_pointer = ⊥
  Explains f size flags s s' invalid_size = ⊥
  Explains f size flags s s' mapping_overlap = ⊥

  -- What `build` gives, on every branch.
  abbrev pub Builds :
      Option FileOffset → ℕ → ℕ → ℕ → State → Outcome Error MmapRegion × State → Type 0
  Builds f size prot flags s (ok r, s') =
      (bit_and flags os.map_fixed_bit ≡ 0)
      × IsBacked f size s
      × (r.size ≡ size)
      × (r.file_offset ≡ f)
      × (r.flags ≡ flags)
      × (r.owned ≡ true)
      × (os.mmap size prot flags (fd_of f) (start_of f) s ≡ (done r.addr, s'))
      × (r.prot ≡ prot)
      × (r.hugetlbfs ≡ none)
  Builds f size prot flags s (err (mmap_failed e), s') =
      (bit_and flags os.map_fixed_bit ≡ 0)
      × IsBacked f size s
      × (os.mmap size prot flags (fd_of f) (start_of f) s ≡ (failed e, s'))
  Builds f size prot flags s (err e, s') = Explains f size flags s s' e
  Builds f size prot flags s (panic, s') = ⊥
  Builds f size prot flags s (stuck, s') = ⊥

  abbrev pub Checks : Option FileOffset → ℕ → ℕ → State → Outcome Error (Option ℕ × ℕ) → Type 0
  Checks f size flags s (ok at) = IsBacked f size s × (at ≡ (fd_of f, start_of f))
  Checks f size flags s (err e) = Explains f size flags s s e
  Checks f size flags s panic = ⊥
  Checks f size flags s stuck = ⊥

  -- The length of the file against the end of the range.
  past_eof-Checks :
      (f : FileOffset) (size flags : ℕ) (s : State) (known : Option ℕ)
      → os.file_len f.file s ≡ known
      → f.start + size < word
      → Checks (some f) size flags s (past_eof (f.start + size) known >> ok (some f.file, f.start))
  past_eof-Checks f size flags s none e h = ((h, λ end e'. cc), refl)
  past_eof-Checks f size flags s (some end) e h = elim (Bool-cases (ltb end (f.start + size))) [
    | inl past ↦ rw past (refl, (end, e, ltb→lt _ _ past))
    | inr fits ↦ rw fits ((h, λ last e'. let same : end ≡ last = cc in ground arith), refl)
  ]

  backing_checked :
      (f : FileOffset) (size : ℕ) (s : State)
      → ltb (f.start + size) word ≡ true
      → backing os (some f) size s
        ≡ (past_eof (f.start + size) (os.file_len f.file s) >> ok (some f.file, f.start))
  unfolding check_file_offset
  backing_checked f size s e = rw e refl

  backing_wrapped :
      (f : FileOffset) (size : ℕ) (s : State)
      → ltb (f.start + size) word ≡ false
      → backing os (some f) size s ≡ err invalid_offset_length
  unfolding check_file_offset
  backing_wrapped f size s e = rw e refl

  pub backing-Checks :
      (f : Option FileOffset) (size flags : ℕ) (s : State)
      → Checks f size flags s (backing os f size s)
  backing-Checks none size flags s = (tt, refl)
  backing-Checks (some f) size flags s = elim (Bool-cases (ltb (f.start + size) word)) [
    | inl e ↦
        subst (Checks (some f) size flags s) (sym (backing_checked f size s e))
          (past_eof-Checks f size flags s (os.file_len f.file s) refl (ltb→lt _ _ e))
    | inr e ↦
        subst (Checks (some f) size flags s) (sym (backing_wrapped f size s e)) (refl, ground arith)
  ]

  map_backed-Builds :
      (f : Option FileOffset) (size prot flags : ℕ) (s : State) (o : Outcome Error (Option ℕ × ℕ))
      → bit_and flags os.map_fixed_bit ≡ 0
      → Checks f size flags s o
      → Builds f size prot flags s (map_backed os f size prot flags o s)
  map_backed-Builds f size prot flags s (ok at) free (backed, e) =
      rw e (after (os.mmap size prot flags (fd_of f) (start_of f) s) refl)
    where
      after :
          (r : Sys ℕ × State)
          → os.mmap size prot flags (fd_of f) (start_of f) s ≡ r
          → Builds f size prot flags s (mapped os f size prot flags r)
      after (failed x, s') call = (free, backed, call)
      after (done addr, s') call = (free, backed, refl, refl, refl, refl, call, refl, refl)
  map_backed-Builds f size prot flags s (err (mmap_failed e)) free why = absurd why
  map_backed-Builds f size prot flags s (err e) free why = why
  map_backed-Builds f size prot flags s panic free h = absurd h
  map_backed-Builds f size prot flags s stuck free h = absurd h

  -- Where `build` succeeds, the flags have no MAP_FIXED, the file range, if there is one, does not
  -- wrap and ends inside the file if its length can be read, `mmap` was called with the size,
  -- protection and flags asked for and the descriptor and offset of that range, or none and 0, and the
  -- region has the address that it gave, in the state that it left, with the size, file range,
  -- protection and flags asked for, marked as owned and without a hugetlbfs setting. An error of
  -- `mmap` is that of the same call, after the same checks; any other error states what was wrong with
  -- the flags or the file range, and nothing has changed. There is no other outcome.
  pub build-Builds :
      (f : Option FileOffset) (size prot flags : ℕ) (s : State)
      → Builds f size prot flags s (build os f size prot flags s)
  unfolding build
  build-Builds f size prot flags s = elim (ℕ-cases (bit_and flags os.map_fixed_bit)) [
    | inl e ↦ rw e (
        map_backed-Builds f size prot flags s (backing os f size s) e
          (backing-Checks f size flags s))
    | inr ne ↦
        let fixed : (bit_and flags os.map_fixed_bit == 0) ≡ false = ground arith in
        rw fixed (refl, ne)
  ]
    where
      ℕ-cases : (n : ℕ) → (n ≡ 0) ⊎ (n ≢ 0)
      ℕ-cases zero = inl refl
      ℕ-cases (suc n) = inr (λ e. absurd (omega (arith, e)))

  pub from_file-Builds :
      (f : FileOffset) (size : ℕ) (s : State)
      → Builds
          (some f)
          size
          (bit_or os.prot_read os.prot_write)
          (bit_or os.map_noreserve os.map_shared)
          s
          (from_file os f size s)
  unfolding from_file
  from_file-Builds f size s = build-Builds (some f) size _ _ s

  pub new-Builds :
      (size : ℕ) (s : State)
      → Builds none size
          (bit_or os.prot_read os.prot_write)
          (bit_or (bit_or os.map_anonymous os.map_noreserve) os.map_private)
          s
          (new os size s)
  unfolding new
  new-Builds size s = build-Builds none size _ _ s
