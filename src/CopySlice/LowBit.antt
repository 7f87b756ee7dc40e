-- ===== src/CopySlice/LowBit.antt =====
-- `alignment` is the lowest set bit of an address: it is not zero, and where it reaches a power of
-- two, that power divides the address.
use vm_memory.Base.{
  ℕ, zero, suc, ◌+◌, ◌-◌, ◌*◌, ◌/◌, ◌%◌, ◌^◌, ◌≤◌, ◌<◌, min, bit_and, ◌≡◌, refl, ap, arith, word,
  wrapping_add, complement,
}
use vm_memory.CopySlice.{alignment}
use Prim.Native.Nat.{digits, bit_and-bitwise}
use native.Mathlib.Nat.{le_refl, pow-suc, le_refl}
use native.Mathlib.Decide.{ℕ_discrete}

digits_enough :
    (z : ℕ → ℕ) (f : ℕ → ℕ → ℕ) (n m a b : ℕ) → a ≤ n → a ≤ m → digits z f n a b ≡ digits z f m a b
digits_enough z f zero zero a b p q = refl
digits_enough z f zero (suc m) zero b p q = refl
digits_enough z f zero (suc m) (suc a) b p q = absurd (omega arith)
digits_enough z f (suc n) zero zero b p q = refl
digits_enough z f (suc n) zero (suc a) b p q = absurd (omega arith)
digits_enough z f (suc n) (suc m) zero b p q = refl
digits_enough z f (suc n) (suc m) (suc a) b p q =
    rw (digits_enough z f n m (suc a / 2) (b / 2) (omega arith) (omega arith))

pub bit_and_low : (a b : ℕ) → bit_and a b ≡ bit_and (a / 2) (b / 2) * 2 + min (a % 2) (b % 2)
bit_and_low zero b = simp bit_and-bitwise (omega arith)
bit_and_low (suc a) b = simp bit_and-bitwise (
    omega (
      arith,
      digits_enough (λ y. 0) min a (suc a / 2) (suc a / 2) (b / 2) (omega arith) (le_refl _),
    ))

-- A number and its complement share no bit.
pub bit_and-complement : (w z : ℕ) → z < 2 ^ w → bit_and z (2 ^ w - 1 - z) ≡ 0
bit_and-complement zero zero h = refl
bit_and-complement zero (suc z) h = absurd (omega arith)
bit_and-complement (suc w) z h =
    let p : 2 ^ suc w ≡ 2 ^ w * 2 = pow-suc 2 w in
    let half : (2 ^ suc w - 1 - z) / 2 ≡ 2 ^ w - 1 - z / 2 = omega arith in
    omega (
      arith,
      bit_and_low z (2 ^ suc w - 1 - z),
      ap (bit_and (z / 2)) half,
      bit_and-complement w (z / 2) (omega arith),
    )

-- What the lowest bit `b` of `x` is good for.
abbrev pub IsLowBit : ℕ → ℕ → Type 0
IsLowBit b x = (1 ≤ b) × (2 ≤ b → x % 2 ≡ 0) × (4 ≤ b → x % 4 ≡ 0) × (8 ≤ b → x % 8 ≡ 0)

negated-IsLowBit : (w x : ℕ) → 0 < x → x < 2 ^ w → IsLowBit (bit_and x (2 ^ w - x)) x
negated-IsLowBit zero x pos h = absurd (omega arith)
negated-IsLowBit (suc w) x pos h = elim (ℕ_discrete (x % 2) 0) [
  | yes e ↦
      let p : 2 ^ suc w ≡ 2 ^ w * 2 = pow-suc 2 w in
      let half : (2 ^ suc w - x) / 2 ≡ 2 ^ w - x / 2 = omega arith in
      let ih = negated-IsLowBit w (x / 2) (omega arith) (omega arith) in
      let b = bit_and (x / 2) (2 ^ w - x / 2) in
      let same : bit_and x (2 ^ suc w - x) ≡ b * 2 =
        omega (arith, bit_and_low x (2 ^ suc w - x), ap (bit_and (x / 2)) half) in
      (
        omega (arith, ih.0),
        (λ q. e),
        (λ q. omega (arith, ih.1 (omega arith))),
        (λ q. omega (arith, ih.2 (omega arith))),
      )
  | no odd ↦
      let p : 2 ^ suc w ≡ 2 ^ w * 2 = pow-suc 2 w in
      let half : (2 ^ suc w - x) / 2 ≡ 2 ^ w - 1 - x / 2 = omega arith in
      let same : bit_and x (2 ^ suc w - x) ≡ 1 = omega (
        arith,
        bit_and_low x (2 ^ suc w - x),
        ap (bit_and (x / 2)) half,
        bit_and-complement w (x / 2) (omega arith),
      ) in
      (
        omega arith,
        (λ q. absurd (omega arith)),
        (λ q. absurd (omega arith)),
        λ q. absurd (omega arith),
      )
]

pub alignment-IsLowBit : (x : ℕ) → 0 < x → x < word → IsLowBit (alignment x) x
unfolding alignment
alignment-IsLowBit x pos h =
    let same : wrapping_add (complement x) 1 ≡ 2 ^ 64 - x = omega arith in
    rw same (negated-IsLowBit 64 x pos h)
