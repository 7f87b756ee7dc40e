-- ===== src/GuestBytes/Source.antt =====
-- What the loop around `read` takes from a source.
use vm_memory.Base.{
  ℕ, zero, suc, ◌≤◌, ◌≡◌, refl, ap, ◌∙◌, List, ◌++◌, length, Outcome, panic, stuck, err, ok,
}
use vm_memory.Region.{Error, io_error}
use vm_memory.Bytes.{Io, got, interrupted, io_failed, Reader}
use vm_memory.GuestBytes.{after_read, read_again}
use vm_memory.Volatile.Streams.Ends.{Fitting, IsReader, SettlesAfter, Settles}

-- What is relied on of a reader: an answer fits the buffer, and is what is taken from the source.
module _ {F : Type 0} (reader : Reader F) (taken : F → List ℕ) where
  abbrev pub Takes : F → Io (List ℕ) × F → Type 0
  Takes src (got bs, src') = taken src' ≡ taken src ++ bs
  Takes src (interrupted, src') = taken src' ≡ taken src
  Takes src (io_failed e, src') = taken src' ≡ taken src

  pub record IsSource : Type 0 where
    pub fits : IsReader reader
    pub takes : (len : ℕ) (src : F) → Takes src (reader.read len src)

  -- What the loop around `read` gives where the interruptions settle.
  abbrev pub Answers : ℕ → F → Outcome Error (List ℕ) × F → Type 0
  Answers len src (ok bs, src') =
      (length bs ≤ len)
      × (taken src' ≡ taken src ++ bs)
      × ((d : F) × (reader.read len d ≡ (got bs, src')))
  Answers len src (err (io_error e), src') =
      (taken src' ≡ taken src) × ((d : F) × (reader.read len d ≡ (io_failed e, src')))
  Answers len src (err e, src') = ⊥
  Answers len src (panic, src') = ⊥
  Answers len src (stuck, src') = ⊥

  Answers-eq :
      (len : ℕ) (src mid : F) (o : Outcome Error (List ℕ) × F)
      → taken mid ≡ taken src
      → Answers len mid o
      → Answers len src o
  Answers-eq len src mid (ok bs, src') e h = (h.0, h.1 ∙ ap (λ t. t ++ bs) e, h.2)
  Answers-eq len src mid (err (io_error x), src') e h = (h.0 ∙ e, h.1)
  Answers-eq len src mid (err x, src') e h = absurd h
  Answers-eq len src mid (panic, src') e h = absurd h
  Answers-eq len src mid (stuck, src') e h = absurd h

  after_read-Answers :
      (fuel len : ℕ) (src : F) (r : Io (List ℕ) × F)
      → reader.read len src ≡ r
      → Fitting reader len r.0
      → Takes src r
      → SettlesAfter reader (Settles reader fuel len) r
      → ((mid : F) → Settles reader fuel len mid → Answers len mid (read_again reader fuel len mid))
      → Answers len src (after_read (read_again reader fuel len) r)
  unfolding SettlesAfter
  after_read-Answers fuel len src (got bs, src') e fit t h ih = (fit, t, (src, e))
  after_read-Answers fuel len src (interrupted, src') e fit t h ih =
      Answers-eq len src src' (read_again reader fuel len src') t (ih src' h)
  after_read-Answers fuel len src (io_failed x, src') e fit t h ih = (t, (src, e))

  pub read_again-Answers :
      IsSource
      → (fuel len : ℕ) (src : F) → Settles reader fuel len src
      → Answers len src (read_again reader fuel len src)
  unfolding read_again Settles
  read_again-Answers source zero len src h = absurd h
  read_again-Answers source (suc fuel) len src h =
      after_read-Answers fuel len src (reader.read len src) refl (source.fits len src)
        (source.takes len src) h (read_again-Answers source fuel len)
