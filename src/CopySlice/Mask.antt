-- ===== src/CopySlice/Mask.antt =====
-- The low bits of a number are its remainder by a power of two.
use vm_memory.Base.{
  ℕ, zero, suc, ◌+◌, ◌-◌, ◌*◌, ◌/◌, ◌%◌, ◌^◌, ◌≤◌, bit_and, ◌≡◌, refl, sym, ap, ap₂, ◌∙◌, arith,
}
use vm_memory.CopySlice.LowBit.{bit_and_low}
use Prim.Native.Nat.{bit_and-bitwise}
use native.Mathlib.Nat.{
  div-div-eq-div-mul, mod-add-div, one-le-pow, mul_assoc, mul_comm, mod-one, pow-suc, one-le-pow,
  mul_comm,
}

bit_and_zero : (n x : ℕ) → x ≤ n → bit_and x 0 ≡ 0
bit_and_zero n zero h = simp bit_and-bitwise refl
bit_and_zero zero (suc x) h = absurd (omega arith)
bit_and_zero (suc n) (suc x) h =
    omega (arith, bit_and_low (suc x) 0, bit_and_zero n (suc x / 2) (omega arith), none_left)
  where
    none_left : bit_and (suc x / 2) (0 / 2) ≡ bit_and (suc x / 2) 0
    none_left = refl

mod_pow-suc : (k x : ℕ) → x % 2 ^ suc k ≡ (x / 2) % 2 ^ k * 2 + x % 2
mod_pow-suc k x =
    let p : 2 ^ suc k ≡ 2 * 2 ^ k = pow-suc 2 k ∙ mul_comm (2 ^ k) 2 in
    let quotient : x / 2 ^ suc k ≡ x / 2 / 2 ^ k =
      ap (λ t. x / t) p ∙ sym (div-div-eq-div-mul x 2 (2 ^ k)) in
    let whole_sum : x % 2 ^ suc k + 2 * 2 ^ k * (x / 2 / 2 ^ k) ≡ x =
      ap₂ (λ a b. x % 2 ^ suc k + a * b) (sym p) (sym quotient) ∙ mod-add-div x (2 ^ suc k) in
    let half_sum = mod-add-div (x / 2) (2 ^ k) in
    let both = mul_assoc 2 (2 ^ k) (x / 2 / 2 ^ k) in omega (arith, whole_sum, half_sum, both)

pub bit_and-mask : (k x : ℕ) → bit_and x (2 ^ k - 1) ≡ x % 2 ^ k
bit_and-mask zero x = bit_and_zero x x (omega arith) ∙ sym (mod-one x)
bit_and-mask (suc k) x =
    let p : 2 ^ suc k ≡ 2 ^ k * 2 = pow-suc 2 k in
    let some_power : 1 ≤ 2 ^ k = one-le-pow k 2 (omega arith) in
    let half : (2 ^ suc k - 1) / 2 ≡ 2 ^ k - 1 = omega (arith, p, some_power) in
    let odd : (2 ^ suc k - 1) % 2 ≡ 1 = omega (arith, p, some_power) in
    let ih = bit_and-mask k (x / 2) in
    omega
      (arith, bit_and_low x (2 ^ suc k - 1), ap (bit_and (x / 2)) half, odd, ih, mod_pow-suc k x)
