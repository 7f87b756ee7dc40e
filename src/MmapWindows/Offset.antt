-- ===== src/MmapWindows/Offset.antt =====
-- A file mapping that does not begin at the start of the file.
use vm_memory.MmapWindows.{
  WinOs, invalid_handle_value, WinRegion, high_half, low_half, viewed, from_file,
}
use vm_memory.Base.{
  ℕ, ◌+◌, ◌*◌, ◌^◌, ◌<◌, ◌≡◌, refl, ◌∙◌, ◌≢◌, inl, inr, arith, ◌==◌, Bool-cases, word, Outcome, err,
}
use vm_memory.MmapUnix.{FileOffset}

-- What Windows documents of a file mapping: it is created with a maximum size, and no view of it may
-- pass that.
pub record IsWinOs {State : Type 0} (os : WinOs State) (limit : State → ℕ → ℕ) : Type 0 where
  pub created :
      (handle high low : ℕ) (s : State)
      → 0 < high * 2 ^ 32 + low
      → (os.create_file_mapping handle high low s).0 ≢ 0
      → limit
          (os.create_file_mapping handle high low s).1
          (os.create_file_mapping handle high low s).0
        ≡ high * 2 ^ 32 + low
  pub viewed_within :
      (mapping high low size : ℕ) (s : State)
      → limit s mapping < high * 2 ^ 32 + low + size
      → (os.map_view_of_file mapping high low size s).0 ≡ 0

halves_lem : (n : ℕ) → n < word → high_half n * 2 ^ 32 + low_half n ≡ n
halves_lem n h = omega arith

module _ {State : Type 0} (os : WinOs State) (limit : State → ℕ → ℕ) (laws : IsWinOs os limit)
    (f_off : FileOffset) (size : ℕ) (pos : 0 < size) (fits : size < word)
    (start_fits : f_off.start < word) (behind : 0 < f_off.start) where
  abbrev Fails : Outcome ℕ WinRegion → Type 0
  Fails o = (e : ℕ) × (o ≡ err e)

  viewed-Fails :
      (made : ℕ × State)
      → (made.0 ≢ 0 → limit made.1 made.0 ≡ size)
      → Fails (viewed os f_off size made).0
  viewed-Fails (mapping, s) sized = elim (Bool-cases (mapping == 0)) [
    | inl null ↦ (os.last_error s, rw null refl)
    | inr made ↦
        let limited : limit s mapping ≡ size = sized (ground arith) in
        let all : high_half f_off.start * 2 ^ 32 + low_half f_off.start ≡ f_off.start =
          halves_lem f_off.start start_fits in
        let none_viewed =
          laws.viewed_within mapping (high_half f_off.start) (low_half f_off.start) size s
            (omega (arith, limited, all)) in
        rw (made, none_viewed) (_, refl)
  ]

  -- On a system where no view passes the maximum size of its mapping, which is the one given to
  -- `CreateFileMappingA`: `from_file` of a region that is not empty and begins behind the start of
  -- the file fails, where its offset and its size fit u64, since it gives the size of the region alone.
  pub from_file-Fails : (s : State) → Fails (from_file os f_off size s).0
  unfolding from_file
  from_file-Fails s = elim (Bool-cases (f_off.file == invalid_handle_value)) [
    | inl bad ↦ (os.ebadf, rw bad refl)
    | inr good ↦
        let all : high_half size * 2 ^ 32 + low_half size ≡ size = halves_lem size fits in
        rw good (
          viewed-Fails (os.create_file_mapping f_off.file (high_half size) (low_half size) s)
            (λ made.
              laws.created f_off.file (high_half size) (low_half size) s (omega (arith, all)) made
              ∙ all))
  ]
