-- ===== src/Base/Results.antt =====
-- How a Rust call ends: `Ok`, `Err`, a panic, or a loop that used up the fuel of the model.
use mathlib.Core.Path.{◌≡◌, refl}
use mathlib.Core.Option.{Option, none, some}
use mathlib.Core.Bool.{Bool, true, false}

pub data Outcome (E A : Type 0) : Type 0 where
  panic stuck : Outcome E A
  err : (why : E) → Outcome E A
  ok : (value : A) → Outcome E A

-- `?`, and the sequence of two statements.
infixl 5 ◌>>=◌ ◌>>◌
abbrev pub ◌>>=◌ : {E A B : Type 0} (first : Outcome E A) (next : A → Outcome E B) → Outcome E B
panic >>= next = panic
stuck >>= next = stuck
err why >>= next = err why
ok value >>= next = next value

abbrev pub ◌>>◌ : {E B : Type 0} (first : Outcome E (Unit {0})) (after : Outcome E B) → Outcome E B
first >> after = first >>= (λ (u : Unit {0}). after)

-- `map_err`
abbrev pub map_err : {E F A : Type 0} → (E → F) → Outcome E A → Outcome F A
map_err f (ok a) = ok a
map_err f (err e) = err (f e)
map_err f panic = panic
map_err f stuck = stuck

-- `Result::map`
abbrev pub map_ok : {E A B : Type 0} → (A → B) → Outcome E A → Outcome E B
map_ok f (ok a) = ok (f a)
map_ok f (err e) = err e
map_ok f panic = panic
map_ok f stuck = stuck

-- `ok_or`
abbrev pub ok_or : {E A : Type 0} → Option A → E → Outcome E A
ok_or none e = err e
ok_or (some a) e = ok a

-- `Option::unwrap`
abbrev pub unwrap : {E A : Type 0} → Option A → Outcome E A
unwrap none = panic
unwrap (some a) = ok a

-- `assert!`
abbrev pub assert : {E : Type 0} → Bool → Outcome E (Unit {0})
assert true = ok tt
assert false = panic

-- The call comes back, with a value or an error.
abbrev pub Returns : {E A : Type 0} → Outcome E A → Type 0
Returns (ok a) = Unit
Returns (err e) = Unit
Returns panic = ⊥
Returns stuck = ⊥

-- `Option::and_then`
abbrev pub and_then : {A B : Type 0} → Option A → (A → Option B) → Option B
and_then none f = none
and_then (some a) f = f a

abbrev pub is_some : {A : Type 0} → Option A → Bool
is_some none = false
is_some (some a) = true

-- A `?` that went on, taken apart.
pub >>=-eq-ok :
    {E A B : Type 0} (first : Outcome E A) (next : A → Outcome E B) {out : B}
    → (first >>= next) ≡ ok out
    → (value : A) × (first ≡ ok value) × (next value ≡ ok out)
>>=-eq-ok panic next same = cc
>>=-eq-ok stuck next same = cc
>>=-eq-ok (err why) next same = cc
>>=-eq-ok (ok value) next same = (value, refl, same)

pub ok_inj : {E A : Type 0} {a b : A} → ◌≡◌ {A = Outcome E A} (ok a) (ok b) → a ≡ b
ok_inj h = cc
