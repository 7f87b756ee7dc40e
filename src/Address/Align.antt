-- ===== src/Address/Align.antt =====
-- `checked_align_up` rounds up to a multiple of a power of two.
use vm_memory.Base.{
  ℕ, zero, suc, ◌+◌, ◌-◌, ◌*◌, ◌/◌, ◌%◌, ◌^◌, ◌≤◌, ◌<◌, bit_and, ◌≡◌, refl, sym, ap, ap₂, ◌∙◌, inl,
  inr, true, false, Option, none, some, arith, ltb, ◌==◌, ltb→lt, Bool-cases, word, wrapping_sub,
  complement, Outcome, panic, stuck, err, ok,
}
use vm_memory.CopySlice.LowBit.{bit_and_low}
use vm_memory.Address.{checked_align_up, unchecked_align_up}
use native.Mathlib.Nat.{
  pow-le-pow_right, mul-suc, div-div-eq-div-mul, mul-div-le, mod-add-div, one-le-pow, mul_assoc,
  mul_comm, mul-le-mul_left, pow-suc, one-le-pow, mod-eq_of_lt, mul_comm, mod-lt,
}
use native.Mathlib.Decide.{dec_lt}

doubled : (q K : ℕ) → K * 2 * q ≡ K * q * 2
doubled q K = omega (arith, mul_assoc K 2 q, mul_comm 2 q, mul_assoc K q 2)

-- A mask of the high digits keeps the multiple of the power of two below a number.
bit_and-high : (w k x : ℕ) → k ≤ w → x < 2 ^ w → bit_and x (2 ^ w - 2 ^ k) ≡ 2 ^ k * (x / 2 ^ k)
bit_and-high zero zero zero h p = refl
bit_and-high zero zero (suc x) h p = absurd (omega arith)
bit_and-high zero (suc k) x h p = absurd (omega arith)
bit_and-high (suc w) zero x h p =
    let e : 2 ^ suc w ≡ 2 ^ w * 2 = pow-suc 2 w in
    let one : 1 ≤ 2 ^ w = one-le-pow w 2 (omega arith) in
    let half : (2 ^ suc w - 2 ^ 0) / 2 ≡ 2 ^ w - 2 ^ 0 = omega arith in
    omega (
      arith,
      bit_and_low x (2 ^ suc w - 2 ^ 0),
      ap (bit_and (x / 2)) half,
      bit_and-high w zero (x / 2) (omega arith) (omega arith),
    )
bit_and-high (suc w) (suc k) x h p =
    let e : 2 ^ suc w ≡ 2 ^ w * 2 = pow-suc 2 w in
    let f : 2 ^ suc k ≡ 2 ^ k * 2 = pow-suc 2 k in
    let half : (2 ^ suc w - 2 ^ suc k) / 2 ≡ 2 ^ w - 2 ^ k = omega arith in
    let even : (2 ^ suc w - 2 ^ suc k) % 2 ≡ 0 = omega arith in
    omega (
      arith,
      bit_and_low x (2 ^ suc w - 2 ^ suc k),
      ap (bit_and (x / 2)) half,
      bit_and-high w k (x / 2) (omega arith) (omega arith),
      ap (λ K. K * (x / K)) f,
      doubled (x / (2 ^ k * 2)) (2 ^ k),
      ap (λ q. 2 ^ k * q) (halved x (2 ^ k)),
    )
  where
    halved : (x K : ℕ) → x / (K * 2) ≡ x / 2 / K
    halved x K = ap (λ d. x / d) (mul_comm K 2) ∙ sym (div-div-eq-div-mul x 2 K)

power-alone : (k : ℕ) → bit_and (2 ^ k) (2 ^ k - 1) ≡ 0
power-alone zero = refl
power-alone (suc k) =
    let e : 2 ^ suc k ≡ 2 ^ k * 2 = pow-suc 2 k in
    let one : 1 ≤ 2 ^ k = one-le-pow k 2 (omega arith) in
    let half : 2 ^ suc k / 2 ≡ 2 ^ k = omega arith in
    let less : (2 ^ suc k - 1) / 2 ≡ 2 ^ k - 1 = omega arith in
    omega (arith, bit_and_low (2 ^ suc k) (2 ^ suc k - 1), ap₂ bit_and half less, power-alone k)

-- What rounding `addr` up to a multiple of `2 ^ k` gives: the least one, or none where there is no
-- multiple below 2 ^ 64.
abbrev pub RoundsUp : ℕ → ℕ → Outcome (Unit {0}) (Option ℕ) → Type 0
RoundsUp k addr (ok (some r)) =
    ((q : ℕ) × (r ≡ 2 ^ k * q))
    × (addr ≤ r)
    × ((q : ℕ) → addr ≤ 2 ^ k * q → r ≤ 2 ^ k * q)
    × (unchecked_align_up addr (2 ^ k) ≡ r)
RoundsUp k addr (ok none) = (q : ℕ) → addr ≤ 2 ^ k * q → word ≤ 2 ^ k * q
RoundsUp k addr (err e) = ⊥
RoundsUp k addr panic = ⊥
RoundsUp k addr stuck = ⊥

-- A multiple of `K` is not below another by less than `K`.
multiples_apart : (K a b : ℕ) → K * a < K * b + K → K * a ≤ K * b
multiples_apart K a b h = elim (dec_lt b a) [
  | yes p ↦
      let more : K * suc b ≤ K * a = mul-le-mul_left K p in absurd (omega (arith, mul-suc K b))
  | no p ↦ mul-le-mul_left K (omega arith)
]

pow_split : (k j : ℕ) → 2 ^ (k + j) ≡ 2 ^ k * 2 ^ j
pow_split zero j = let same : 0 + j ≡ j = omega arith in ap (λ n. 2 ^ n) same ∙ omega arith
pow_split (suc k) j =
    let next : suc k + j ≡ suc (k + j) = omega arith in
    let twice : 2 ^ k * 2 ^ j * 2 ≡ 2 ^ k * 2 * 2 ^ j = omega (
      arith,
      mul_assoc (2 ^ k) (2 ^ j) 2,
      mul_assoc (2 ^ k) 2 (2 ^ j),
      ap (λ p. 2 ^ k * p) (mul_comm (2 ^ j) 2),
    ) in
    ap (λ n. 2 ^ n) next
    ∙ pow-suc 2 (k + j)
    ∙ ap (λ p. p * 2) (pow_split k j)
    ∙ twice
    ∙ ap (λ p. p * 2 ^ j) (sym (pow-suc 2 k))

-- 2 ^ 64 is a multiple of a power of two below it.
word_split : (k : ℕ) → k < 64 → (q : ℕ) × (word ≡ 2 ^ k * q)
word_split k h =
    let all : 64 ≡ k + (64 - k) = omega arith in
    (2 ^ (64 - k), ap (λ n. 2 ^ n) all ∙ pow_split k (64 - k))

power_small : (k : ℕ) → k < 64 → 2 ^ k < word
power_small k h =
    let next : 2 ^ suc k ≤ 2 ^ 64 = pow-le-pow_right (omega arith) h in
    let one : 1 ≤ 2 ^ k = one-le-pow k 2 (omega arith) in omega (arith, pow-suc 2 k)

masked :
    (k x : ℕ)
    → k < 64
    → x < word
    → bit_and x (complement (wrapping_sub (2 ^ k) 1)) ≡ 2 ^ k * (x / 2 ^ k)
masked k x h p =
    let small : 2 ^ k < word = power_small k h in
    let one : 1 ≤ 2 ^ k = one-le-pow k 2 (omega arith) in
    let mask_of : complement (wrapping_sub (2 ^ k) 1) ≡ 2 ^ 64 - 2 ^ k = omega arith in
    ap (bit_and x) mask_of ∙ bit_and-high 64 k x (omega arith) p

-- The multiple of `K` below `addr + (K - 1)` is the least one that `addr` does not exceed.
least_multiple : (K addr q : ℕ) → 1 ≤ K → addr ≤ K * q → K * ((addr + (K - 1)) / K) ≤ K * q
least_multiple K addr q pos h = multiples_apart K _ q (omega (arith, mul-div-le (addr + (K - 1)) K))

reaches : (K addr : ℕ) → 1 ≤ K → addr ≤ K * ((addr + (K - 1)) / K)
reaches K addr pos = omega (arith, mod-add-div (addr + (K - 1)) K, mod-lt (addr + (K - 1)) pos)

-- For an address and a power of two below 2 ^ 64, `checked_align_up` does not panic; it gives the
-- least multiple of the power that is not below the address, which `unchecked_align_up` gives too, or
-- `None` where every such multiple is 2 ^ 64 or more.
pub checked_align_up-RoundsUp :
    (k addr : ℕ) → k < 64 → addr < word → RoundsUp k addr (checked_align_up addr (2 ^ k))
unfolding checked_align_up unchecked_align_up
checked_align_up-RoundsUp k addr h p =
    let small : 2 ^ k < word = power_small k h in
    let pos : 1 ≤ 2 ^ k = one-le-pow k 2 (omega arith) in
    let less : wrapping_sub (2 ^ k) 1 ≡ 2 ^ k - 1 = omega arith in
    let some_bit : (2 ^ k == 0) ≡ false = ground arith in
    let alone : (bit_and (2 ^ k) (2 ^ k - 1) == 0) ≡ true = rw (power-alone k) refl in
    elim (Bool-cases (ltb (addr + (2 ^ k - 1)) word)) [
      | inl e ↦
          let below = ltb→lt _ _ e in
          let mask_eq : bit_and (addr + (2 ^ k - 1)) (complement (2 ^ k - 1))
              ≡ 2 ^ k * ((addr + (2 ^ k - 1)) / 2 ^ k) =
            ap (λ m. bit_and (addr + (2 ^ k - 1)) (complement m)) (sym less)
            ∙ masked k (addr + (2 ^ k - 1)) h below in
          let sum : (addr + (2 ^ k - 1)) % word ≡ addr + (2 ^ k - 1) = mod-eq_of_lt below in
          rw (less, some_bit, alone, e, mask_eq)
            (
              (_, refl),
              reaches (2 ^ k) addr pos,
              (λ q. least_multiple (2 ^ k) addr q pos),
              rw (less, sum, mask_eq) refl,
            )
      | inr e ↦
          let over : word ≤ addr + (2 ^ k - 1) = ground arith in
          let (w, split) = word_split k h in
          rw (less, some_bit, alone, e)
            (λ q above.
              let apart : 2 ^ k * w ≤ 2 ^ k * q = multiples_apart (2 ^ k) w q (omega arith) in
              omega arith)
    ]
