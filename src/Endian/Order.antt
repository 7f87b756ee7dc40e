-- ===== src/Endian/Order.antt =====
-- The bytes of an endian value lie in its order on every target, and conversions are inverse.
use mathlib.Core.List.{reverse, reverse-reverse, reverse-cons}
use vm_memory.Base.{
  ℕ, zero, suc, ◌+◌, ◌*◌, ◌/◌, ◌%◌, ◌^◌, ◌<◌, ◌≡◌, refl, sym, ap, ◌∙◌, ◌↔◌, true, List, [], ◌∷◌,
  ◌++◌, arith, ==_iff, length, length-append, All,
}
use vm_memory.Endian.{
  Endian, little, big, digits, number, swap_bytes, convert, from, to_native, eq_native, native_eq,
  bytes_of,
}
use native.Mathlib.Nat.{pow-suc}

abbrev IsBytes : List ℕ → Type 0
IsBytes bs = All (λ (b : ℕ). b < 256) bs

digits-IsBytes : (n v : ℕ) → IsBytes (digits n v)
digits-IsBytes zero v = tt
digits-IsBytes (suc n) v = (omega arith, digits-IsBytes n (v / 256))

length-digits : (n v : ℕ) → length (digits n v) ≡ n
length-digits zero v = refl
length-digits (suc n) v = ap suc (length-digits n (v / 256))

number-digits : (n v : ℕ) → v < 256 ^ n → number (digits n v) ≡ v
number-digits zero v h = omega arith
number-digits (suc n) v h =
    let p : 256 ^ suc n ≡ 256 ^ n * 256 = pow-suc 256 n in
    let ih = number-digits n (v / 256) (omega arith) in omega (arith, ih)

digits-number : (bs : List ℕ) → IsBytes bs → digits (length bs) (number bs) ≡ bs
digits-number [] h = refl
digits-number (b ∷ bs) h =
    let low : (b + number bs * 256) % 256 ≡ b = omega (arith, h.0) in
    let high : (b + number bs * 256) / 256 ≡ number bs = omega (arith, h.0) in
    rw (low, high) (ap (λ t. b ∷ t) (digits-number bs h.1))

IsBytes-snoc : (bs : List ℕ) (b : ℕ) → IsBytes bs → b < 256 → IsBytes (bs ++ b ∷ [])
IsBytes-snoc [] b h p = (p, tt)
IsBytes-snoc (x ∷ bs) b h p = (h.0, IsBytes-snoc bs b h.1 p)

reverse-IsBytes : (bs : List ℕ) → IsBytes bs → IsBytes (reverse bs)
reverse-IsBytes [] h = tt
reverse-IsBytes (b ∷ bs) h =
    rw (reverse-cons b bs) (IsBytes-snoc (reverse bs) b (reverse-IsBytes bs h.1) h.0)

length-reverse : (bs : List ℕ) → length (reverse bs) ≡ length bs
length-reverse [] = refl
length-reverse (b ∷ bs) =
    rw (reverse-cons b bs) (omega (arith, length-append (reverse bs) (b ∷ []), length-reverse bs))

-- The digits of the swapped number are the digits in the other order.
digits-swap_bytes : (n v : ℕ) → digits n (swap_bytes n v) ≡ reverse (digits n v)
unfolding swap_bytes
digits-swap_bytes n v =
    let bs = reverse (digits n v) in
    let long : length bs ≡ n = length-reverse (digits n v) ∙ length-digits n v in
    ap (λ k. digits k (number bs)) (sym long)
    ∙ digits-number bs (reverse-IsBytes (digits n v) (digits-IsBytes n v))

swap_bytes-swap_bytes : (n v : ℕ) → v < 256 ^ n → swap_bytes n (swap_bytes n v) ≡ v
unfolding swap_bytes
swap_bytes-swap_bytes n v h =
    ap (λ bs. number (reverse bs)) (digits-swap_bytes n v)
    ∙ ap number (reverse-reverse (digits n v))
    ∙ number-digits n v h

convert-convert :
    (target order : Endian) (n v : ℕ)
    → v < 256 ^ n
    → convert target order n (convert target order n v) ≡ v
unfolding convert
convert-convert little little n v h = refl
convert-convert big big n v h = refl
convert-convert little big n v h = swap_bytes-swap_bytes n v h
convert-convert big little n v h = swap_bytes-swap_bytes n v h

-- On a target of either order, the bytes of an endian value are the digits of the native value in the
-- order of the type.
pub bytes_of-from :
    (target order : Endian) (n v : ℕ)
    → bytes_of target n (from target order n v) ≡ bytes_of order n v
unfolding from convert
bytes_of-from little little n v = refl
bytes_of-from big big n v = refl
bytes_of-from little big n v = digits-swap_bytes n v
bytes_of-from big little n v = ap reverse (digits-swap_bytes n v) ∙ reverse-reverse (digits n v)

-- `to_native` gives back the value that the endian value was made from.
to_native-from :
    (target order : Endian) (n v : ℕ)
    → v < 256 ^ n
    → to_native target order n (from target order n v) ≡ v
unfolding from to_native
to_native-from target order n v h = convert-convert target order n v h

-- Of values that fit `n` bytes, on a target of either order: the endian value made from one has its
-- digits in the order of the type as its bytes in memory and converts back to it, and both
-- comparisons of it with another say whether the two are equal.
pub endian_lem :
    (target order : Endian) (n v other : ℕ)
    → v < 256 ^ n
    → other < 256 ^ n
    → (bytes_of target n (from target order n v) ≡ bytes_of order n v)
      × (to_native target order n (from target order n v) ≡ v)
      × ((eq_native target order n (from target order n v) other ≡ true) ↔ (v ≡ other))
      × ((native_eq target order n other (from target order n v) ≡ true) ↔ (v ≡ other))
unfolding eq_native native_eq from
endian_lem target order n v other p q =
    let back = convert-convert target order n v p in
    let back' = convert-convert target order n other q in
    (
      bytes_of-from target order n v,
      to_native-from target order n v p,
      (
        (λ e.
            let same = (==_iff (convert target order n v) (convert target order n other)).0 e in
            sym back ∙ ap (convert target order n) same ∙ back'),
        λ e. rw (← e) ((==_iff _ _).1 refl),
      ),
      ((λ e. sym back ∙ (==_iff _ _).0 e), λ e. rw back ((==_iff v other).1 e)),
    )
