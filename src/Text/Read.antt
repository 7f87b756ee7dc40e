-- ===== src/Text/Read.antt =====
-- The errors of a volatile memory can be told from their texts.
use vm_memory.Base.{
  ℕ, ◌≤◌, ◌<◌, ◌≡◌, refl, ap, ◌∙◌, ◌≢◌, false, List, [], ◌∷◌, ◌++◌, arith, ◌==◌, if◌then◌else◌,
  get_or, drop, All,
}
use vm_memory.Text.{codes, Format, volatile_text}
use vm_memory.Volatile

-- What stands before the first space, and behind it.
pub word_of : List ℕ → List ℕ
word_of [] = []
word_of (c ∷ cs) = let more = word_of cs in if c == 32 then [] else c ∷ more

pub behind_word : List ℕ → List ℕ
behind_word [] = []
behind_word (c ∷ cs) = let more = behind_word cs in if c == 32 then cs else more

abbrev pub NoSpace : List ℕ → Type 0
NoSpace = All (λ c. c ≢ 32)

word_of-append : (ds cs : List ℕ) → NoSpace ds → word_of (ds ++ 32 ∷ cs) ≡ ds
unfolding word_of
word_of-append [] cs h = refl
word_of-append (d ∷ ds) cs h =
    let other : (d == 32) ≡ false = ground (arith, h.0) in
    rw other (ap (λ xs. d ∷ xs) (word_of-append ds cs h.1))

behind_word-append : (ds cs : List ℕ) → NoSpace ds → behind_word (ds ++ 32 ∷ cs) ≡ cs
unfolding behind_word
behind_word-append [] cs h = refl
behind_word-append (d ∷ ds) cs h =
    let other : (d == 32) ≡ false = ground (arith, h.0) in rw other (behind_word-append ds cs h.1)

-- What is relied on of the formats of numbers: they have no spaces and can be read, and a decimal
-- number begins with a digit.
pub record IsFormat (f : Format) (read_decimal read_hex : List ℕ → ℕ) : Type 0 where
  pub decimal_spaces : (n : ℕ) → NoSpace (f.decimal n)
  pub decimal_digit : (n : ℕ) → (48 ≤ get_or (f.decimal n) 0 0) × (get_or (f.decimal n) 0 0 < 58)
  pub decimal_read : (n : ℕ) → read_decimal (f.decimal n) ≡ n
  pub hex_spaces : (n : ℕ) → NoSpace (f.lower_hex n)
  pub hex_read : (n : ℕ) → read_hex (f.lower_hex n) ≡ n

-- The errors with a text of their own.
abbrev pub IsOwn : Volatile.Error → Type 0
IsOwn (Volatile.io_error e) = ⊥
IsOwn e = Unit

abbrev kind : Volatile.Error → ℕ
kind (Volatile.out_of_bounds addr) = 0
kind (Volatile.overflow base offset) = 1
kind (Volatile.too_big nelements size) = 2
kind (Volatile.misaligned addr alignment) = 3
kind (Volatile.partial_buffer expected completed) = 4
kind (Volatile.io_error e) = 5

-- The kind of a text that begins with "address 0x", by what stands behind the number.
abbrev address_kind : List ℕ → ℕ
address_kind cs = if get_or cs 0 0 == 111 then 1 else if get_or cs 3 0 == 110 then 3 else 0

abbrev kind_of : List ℕ → ℕ
kind_of cs =
    if get_or cs 0 0 == 97
    then address_kind (behind_word (drop 10 cs))
    else if get_or cs 0 0 == 111
    then 4
    else 2

digit_kind : (cs : List ℕ) → 48 ≤ get_or cs 0 0 → get_or cs 0 0 < 58 → kind_of cs ≡ 2
digit_kind cs low high =
    let no_a : (get_or cs 0 0 == 97) ≡ false = ground arith in
    let no_o : (get_or cs 0 0 == 111) ≡ false = ground arith in rw (no_a, no_o) refl

module _ (f : Format) (read_decimal read_hex : List ℕ → ℕ)
    (laws : IsFormat f read_decimal read_hex) where
  head_of_number : (n : ℕ) (cs : List ℕ) → get_or (f.decimal n ++ cs) 0 0 ≡ get_or (f.decimal n) 0 0
  head_of_number n cs = go (f.decimal n) (laws.decimal_digit n)
    where
      go :
          (ds : List ℕ)
          → (48 ≤ get_or ds 0 0) × (get_or ds 0 0 < 58)
          → get_or (ds ++ cs) 0 0 ≡ get_or ds 0 0
      go [] h = absurd (omega arith)
      go (d ∷ ds) h = refl

  kind_of-volatile_text : (e : Volatile.Error) → IsOwn e → kind_of (volatile_text f e) ≡ kind e
  unfolding volatile_text
  kind_of-volatile_text (Volatile.out_of_bounds addr) o =
      rw (behind_word-append (f.lower_hex addr) (codes "is out of bounds") (laws.hex_spaces addr))
        refl
  kind_of-volatile_text (Volatile.overflow base by) o =
      rw
        (behind_word-append (f.lower_hex base)
          (codes "offset by 0x" ++ (f.lower_hex by ++ codes " would overflow"))
          (laws.hex_spaces base))
        refl
  kind_of-volatile_text (Volatile.too_big nelements size) o =
      let tail =
        codes " elements of size " ++ (f.decimal size ++ codes " would overflow a usize") in
      let head = head_of_number nelements tail in
      let digit = laws.decimal_digit nelements in
      digit_kind (f.decimal nelements ++ tail) (omega (arith, head, digit))
        (omega (arith, head, digit))
  kind_of-volatile_text (Volatile.misaligned addr alignment) o =
      rw
        (behind_word-append (f.lower_hex addr) (codes "is not aligned to " ++ f.decimal alignment)
          (laws.hex_spaces addr))
        refl
  kind_of-volatile_text (Volatile.partial_buffer expected completed) o = refl
  kind_of-volatile_text (Volatile.io_error e) o = absurd o

  -- The error that a text of the given kind tells of.
  abbrev error_as : ℕ → List ℕ → Volatile.Error
  error_as k cs =
      let after_number = behind_word (if k == 2 then cs else drop 10 cs) in
      if k == 0
      then Volatile.out_of_bounds (read_hex (word_of (drop 10 cs)))
      else if k == 1
      then Volatile.overflow (read_hex (word_of (drop 10 cs)))
          (read_hex (word_of (drop 12 after_number)))
      else if k == 2
      then Volatile.too_big (read_decimal (word_of cs))
          (read_decimal (word_of (drop 17 after_number)))
      else if k == 3
      then Volatile.misaligned (read_hex (word_of (drop 10 cs)))
          (read_decimal (drop 18 after_number))
      else Volatile.partial_buffer (read_decimal (word_of (drop 9 after_number)))
          (read_decimal (word_of (drop 10 cs)))

  abbrev pub error_of : List ℕ → Volatile.Error
  error_of cs = error_as (kind_of cs) cs

  error_as-volatile_text :
      (e : Volatile.Error) → IsOwn e → error_as (kind e) (volatile_text f e) ≡ e
  unfolding volatile_text
  error_as-volatile_text (Volatile.out_of_bounds addr) o =
      rw
        (
          word_of-append (f.lower_hex addr) (codes "is out of bounds") (laws.hex_spaces addr),
          laws.hex_read addr,
        )
        refl
  error_as-volatile_text (Volatile.overflow base by) o =
      let tail = codes "offset by 0x" ++ (f.lower_hex by ++ codes " would overflow") in
      rw
        (
          word_of-append (f.lower_hex base) tail (laws.hex_spaces base),
          behind_word-append (f.lower_hex base) tail (laws.hex_spaces base),
          word_of-append (f.lower_hex by) (codes "would overflow") (laws.hex_spaces by),
          laws.hex_read base,
          laws.hex_read by,
        )
        refl
  error_as-volatile_text (Volatile.too_big nelements size) o =
      let tail = codes "elements of size " ++ (f.decimal size ++ codes " would overflow a usize") in
      rw
        (
          word_of-append (f.decimal nelements) tail (laws.decimal_spaces nelements),
          behind_word-append (f.decimal nelements) tail (laws.decimal_spaces nelements),
          word_of-append (f.decimal size) (codes "would overflow a usize")
              (laws.decimal_spaces size),
          laws.decimal_read nelements,
          laws.decimal_read size,
        )
        refl
  error_as-volatile_text (Volatile.misaligned addr alignment) o =
      let tail = codes "is not aligned to " ++ f.decimal alignment in
      rw
        (
          word_of-append (f.lower_hex addr) tail (laws.hex_spaces addr),
          behind_word-append (f.lower_hex addr) tail (laws.hex_spaces addr),
          laws.hex_read addr,
          laws.decimal_read alignment,
        )
        refl
  error_as-volatile_text (Volatile.partial_buffer expected completed) o =
      let tail = codes "bytes in " ++ (f.decimal expected ++ codes " long buffer") in
      rw
        (
          word_of-append (f.decimal completed) tail (laws.decimal_spaces completed),
          behind_word-append (f.decimal completed) tail (laws.decimal_spaces completed),
          word_of-append (f.decimal expected) (codes "long buffer") (laws.decimal_spaces expected),
          laws.decimal_read completed,
          laws.decimal_read expected,
        )
        refl
  error_as-volatile_text (Volatile.io_error e) o = absurd o

  -- Where the formats of numbers can be read, have no spaces and begin with a digit in decimal, the
  -- text of an error of a volatile memory that is not an I/O error says which error it is: the error,
  -- with the addresses and sizes in it, can be read from the text again.
  pub error_of-volatile_text : (e : Volatile.Error) → IsOwn e → error_of (volatile_text f e) ≡ e
  error_of-volatile_text e o =
      ap (λ k. error_as k (volatile_text f e)) (kind_of-volatile_text e o)
      ∙ error_as-volatile_text e o
