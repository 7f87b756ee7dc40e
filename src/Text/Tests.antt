-- ===== src/Text/Tests.antt =====
-- The text of an error, with numbers as tally marks.
use vm_memory.Base.{ℕ, zero, suc, ◌-◌, ◌≡◌, refl, List, arith, length, replicate, length-replicate}
use vm_memory.Text.{codes, Format, volatile_text}
use vm_memory.Text.Read.{NoSpace, IsFormat, error_of, error_of-volatile_text}
use vm_memory.Volatile

abbrev tally : ℕ → List ℕ
tally n = replicate (suc n) 48

abbrev tallies : Format
tallies = record { decimal = tally; lower_hex = tally; io_text = tally; errno_text = tally }

abbrev count : List ℕ → ℕ
count ds = length ds - 1

tally-NoSpace : (n : ℕ) → NoSpace (tally n)
tally-NoSpace zero = (omega arith, tt)
tally-NoSpace (suc n) = (omega arith, tally-NoSpace n)

tallies-IsFormat : IsFormat tallies count count
tallies-IsFormat = record {
  decimal_spaces = tally-NoSpace;
  decimal_digit = λ n. omega arith;
  decimal_read = λ n. omega (arith, length-replicate {A = ℕ} n 48);
  hex_spaces = tally-NoSpace;
  hex_read = λ n. omega (arith, length-replicate {A = ℕ} n 48);
}

text_run :
    volatile_text tallies (Volatile.misaligned 2 1) ≡ codes "address 0x000 is not aligned to 00"
unfolding volatile_text
text_run = refl

error_of-volatile_text_example :
    error_of tallies count count tallies-IsFormat (volatile_text tallies (Volatile.misaligned 2 1))
    ≡ Volatile.misaligned 2 1
error_of-volatile_text_example =
    error_of-volatile_text tallies count count tallies-IsFormat (Volatile.misaligned 2 1) tt
