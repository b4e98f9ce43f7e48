-- ===== src/Prelude/Fallible.antt =====
-- Results of fallible code: `crate::error::Result` with its messages, and what Rust does beside.
use mathlib.Core.Path.{◌≡◌, refl, ap}
use mathlib.Core.Bool.{Bool, true, false}
use Prim.Native.String.{String}

-- `err` is an `Err` with the fixed words of its message. `panic` is a Rust panic: an index or a
-- slice out of range. `out_of_fuel` is no result of the code: a loop of the model ran out of fuel.
pub data Result {ℓ} (T : Type ℓ) : Type ℓ where
  panic : Result T
  out_of_fuel : Result T
  ok : T → Result T
  err : String → Result T

-- `?` of Rust.
infixl 5 ◌>>=◌
abbrev pub ◌>>=◌ {ℓ κ} : {S : Type ℓ} {T : Type κ} → Result S → (S → Result T) → Result T
panic >>= next = panic
out_of_fuel >>= next = out_of_fuel
err words >>= next = err words
ok value >>= next = next value

infixl 5 ◌>>◌
abbrev pub ◌>>◌ {ℓ κ} : {S : Type ℓ} {T : Type κ} → Result S → Result T → Result T
first >> second = first >>= λ _. second

-- `ensure!` of error.rs: go on if the test holds.
abbrev pub ensure : Bool → String → Result (Unit {0})
ensure false words = err words
ensure true words = ok tt

-- A condition without which the code panics.
abbrev pub assert : Bool → Result (Unit {0})
assert true = ok tt
assert false = panic

-- A value with the property, or an error of the code; never a panic or a lack of fuel.
abbrev pub Safe {ℓ} : {A : Type ℓ} → (A → Type 0) → Result A → Type 0
Safe P (ok a) = P a
Safe P (err e) = Unit {0}
Safe P panic = ⊥
Safe P out_of_fuel = ⊥

abbrev pub Answers {ℓ} : {A : Type ℓ} → Result A → Type 0
Answers = Safe (λ _. Unit {0})

-- The rule of `?`.
pub >>=-Safe {ℓ κ} :
    {A : Type ℓ} {B : Type κ} (P : A → Type 0) (Q : B → Type 0) (m : Result A) (f : A → Result B)
    → Safe P m
    → ((a : A) → P a → Safe Q (f a))
    → Safe Q (m >>= f)
>>=-Safe P Q (ok a) f h k = k a h
>>=-Safe P Q (err e) f h k = tt
>>=-Safe P Q panic f h k = h
>>=-Safe P Q out_of_fuel f h k = h

pub ensure-Safe {ℓ} :
    {B : Type ℓ} (Q : B → Type 0) (b : Bool) (e : String) (m : Result B)
    → (b ≡ true → Safe Q m)
    → Safe Q (ensure b e >> m)
ensure-Safe Q true e m k = k refl
ensure-Safe Q false e m k = tt

-- What came before a success was one.
pub >>=-eq-ok {ℓ κ} :
    {S : Type ℓ} {T : Type κ} {out : T} (first : Result S) (next : S → Result T)
    → (first >>= next) ≡ ok out
    → (value : S) × (first ≡ ok value) × (next value ≡ ok out)
>>=-eq-ok panic next e = cc
>>=-eq-ok out_of_fuel next e = cc
>>=-eq-ok (err words) next e = cc
>>=-eq-ok (ok value) next e = (value, refl, e)

pub Safe-mono {ℓ} :
    {A : Type ℓ} (P Q : A → Type 0) (m : Result A) → ((a : A) → P a → Q a) → Safe P m → Safe Q m
Safe-mono P Q (ok a) k h = k a h
Safe-mono P Q (err e) k h = tt
Safe-mono P Q panic k h = h
Safe-mono P Q out_of_fuel k h = h

-- A value with the property, an error of the code or a panic: whatever runs on fuel has enough of it.
abbrev pub Ends {ℓ} : {A : Type ℓ} → (A → Type 0) → Result A → Type 0
Ends P (ok a) = P a
Ends P (err e) = Unit {0}
Ends P panic = Unit {0}
Ends P out_of_fuel = ⊥

pub >>=-Ends {ℓ κ} :
    {A : Type ℓ} {B : Type κ} (P : A → Type 0) (Q : B → Type 0) (m : Result A) (f : A → Result B)
    → Ends P m
    → ((a : A) → P a → Ends Q (f a))
    → Ends Q (m >>= f)
>>=-Ends P Q (ok a) f h k = k a h
>>=-Ends P Q (err e) f h k = tt
>>=-Ends P Q panic f h k = tt
>>=-Ends P Q out_of_fuel f h k = h

pub Ends-mono {ℓ} :
    {A : Type ℓ} (P Q : A → Type 0) (m : Result A) → ((a : A) → P a → Q a) → Ends P m → Ends Q m
Ends-mono P Q (ok a) k h = k a h
Ends-mono P Q (err e) k h = tt
Ends-mono P Q panic k h = tt
Ends-mono P Q out_of_fuel k h = h

pub Ends-Safe {ℓ} : {A : Type ℓ} (P : A → Type 0) (m : Result A) → Safe P m → Ends P m
Ends-Safe P (ok a) h = h
Ends-Safe P (err e) h = tt
Ends-Safe P panic h = tt
Ends-Safe P out_of_fuel h = h

pub ensured : (b : Bool) (words : String) (u : Unit {0}) → ensure b words ≡ ok u → b ≡ true
ensured true words u e = refl
ensured false words u e = cc

module _ {ℓ} {A : Type ℓ} where
  or_default : A → Result A → A
  or_default d (ok a) = a
  or_default d r = d

  pub ok_inj : (a b : A) → ok a ≡ ok b → a ≡ b
  unfolding or_default
  ok_inj a b e = ap (or_default a) e
