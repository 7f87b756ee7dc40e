-- ===== src/MmapUnix/Overlap.antt =====
-- `fds_overlap`: two regions that are backed by the same bytes, of one descriptor and of one file.
use vm_memory.Base.{
  ℕ, ◌+◌, ◌≤◌, ◌<◌, max, ◌≡◌, refl, sym, ap, ◌∙◌, ◌≢◌, ◌↔◌, ◌⊎◌, inl, inr, true, false, Option,
  none, some, arith, ◌==◌, ==_iff, Bool-cases, word,
}
use vm_memory.MmapUnix.{FileOffset, MmapRegion, files_overlap, fds_overlap}

-- The bytes behind descriptors that back a region.
abbrev pub BackedBy : Option FileOffset → ℕ → ℕ → ℕ → Type 0
BackedBy none size fd pos = ⊥
BackedBy (some f) size fd pos = (f.file ≡ fd) × (f.start ≤ pos) × (pos < f.start + size)

-- The end of the part of a file does not wrap.
abbrev pub EndsInWord : Option FileOffset → ℕ → Type 0
EndsInWord none size = Unit
EndsInWord (some f) size = f.start + size < word

files_overlap_iff :
    (f g : Option FileOffset) (l k : ℕ)
    → EndsInWord f l
    → EndsInWord g k
    → 0 < l
    → 0 < k
    → (files_overlap f l g k ≡ true)
      ↔ ((fd : ℕ) × (pos : ℕ) × BackedBy f l fd pos × BackedBy g k fd pos)
files_overlap_iff none g l k a b p q = ((λ h. cc), λ (fd, pos, x, y). absurd x)
files_overlap_iff (some f) none l k a b p q = ((λ h. cc), λ (fd, pos, x, y). absurd y)
files_overlap_iff (some f) (some g) l k a b p q = (
  λ h.
      let same : f.file ≡ g.file = ground arith in
      (
        g.file,
        max f.start g.start,
        (same, omega arith, ground arith),
        (refl, omega arith, ground arith),
      ),
  λ (fd, pos, (x, x0, x1), (y, y0, y1)). let same : f.file ≡ g.file = x ∙ sym y in ground arith,
)

-- For two regions that are not empty and whose file ranges end below 2 ^ 64, `fds_overlap` answers
-- yes exactly where one descriptor and position stand behind them both.
fds_overlap_iff :
    (r o : MmapRegion)
    → EndsInWord r.file_offset r.size
    → EndsInWord o.file_offset o.size
    → 0 < r.size
    → 0 < o.size
    → (fds_overlap r o ≡ true) ↔ (
        (fd : ℕ) × (pos : ℕ) × BackedBy r.file_offset r.size fd pos
        × BackedBy o.file_offset o.size fd pos)
unfolding fds_overlap
fds_overlap_iff r o a b p q = files_overlap_iff r.file_offset o.file_offset r.size o.size a b p q

-- `file_of` gives the file that a descriptor stands for.
module _ (file_of : ℕ → ℕ) where
  -- Some byte of some file backs both regions.
  abbrev pub SharesByte : MmapRegion → MmapRegion → Type 0
  SharesByte r o =
      (pos : ℕ) × (fd : ℕ) × (other_fd : ℕ) × (file_of fd ≡ file_of other_fd)
      × BackedBy r.file_offset r.size fd pos
      × BackedBy o.file_offset o.size other_fd pos

  -- The regions are backed through different descriptors of one file.
  abbrev pub IsAliased : Option FileOffset → Option FileOffset → Type 0
  IsAliased none g = ⊥
  IsAliased (some f) none = ⊥
  IsAliased (some f) (some g) = (f.file ≢ g.file) × (file_of f.file ≡ file_of g.file)

  OneDescriptor : Option FileOffset → Option FileOffset → Type 0
  OneDescriptor f g =
      (l k fd other_fd pos : ℕ)
      → BackedBy f l fd pos
      → BackedBy g k other_fd pos
      → file_of fd ≡ file_of other_fd
      → fd ≡ other_fd

  alias_cases : (f g : Option FileOffset) → IsAliased f g ⊎ OneDescriptor f g
  unfolding OneDescriptor
  alias_cases none g = inr (λ l k fd other_fd pos x y e. absurd x)
  alias_cases (some f) none = inr (λ l k fd other_fd pos x y e. absurd y)
  alias_cases (some f) (some g) = elim (Bool-cases (f.file == g.file)) [
    | inl same ↦ inr (λ l k fd other_fd pos x y e. sym x.0 ∙ (==_iff f.file g.file).0 same ∙ y.0)
    | inr other ↦ elim (Bool-cases (file_of f.file == file_of g.file)) [
      | inl one_file ↦ inl (ground (arith, other), (==_iff _ _).0 one_file)
      | inr two_files ↦ inr (λ l k fd other_fd pos x y e.
          let same : file_of f.file ≡ file_of g.file = ap file_of x.0 ∙ e ∙ sym (ap file_of y.0) in
          absurd (ground arith))
    ]
  ]

  -- For two regions that are not empty and whose file ranges end below 2 ^ 64, whichever files the
  -- descriptors stand for: where `fds_overlap` answers yes, some byte of some file backs both regions;
  -- where it answers no, no byte does, unless the regions have different descriptors of one file.
  pub fds_overlap-SharesByte :
      (r o : MmapRegion)
      → EndsInWord r.file_offset r.size
      → EndsInWord o.file_offset o.size
      → 0 < r.size
      → 0 < o.size
      → ((fds_overlap r o ≡ true) × SharesByte r o)
        ⊎ ((fds_overlap r o ≡ false) × ((¬ SharesByte r o) ⊎ IsAliased r.file_offset o.file_offset))
  unfolding OneDescriptor
  fds_overlap-SharesByte r o a b p q =
      let iff = fds_overlap_iff r o a b p q in
      elim (Bool-cases (fds_overlap r o)) [
        | inl overlap ↦
            let (fd, pos, x, y) = iff.0 overlap in inl (overlap, (pos, fd, fd, refl, x, y))
        | inr apart ↦ inr (
          apart,
          elim (alias_cases r.file_offset o.file_offset) [
            | inl aliased ↦ inr aliased
            | inr one ↦ inl (λ (pos, fd, other_fd, e, x, y).
                let same : fd ≡ other_fd = one r.size o.size fd other_fd pos x y e in
                let both : fds_overlap r o ≡ true = iff.1 (fd, pos, x, rw same y) in cc)
          ],
        )
      ]
