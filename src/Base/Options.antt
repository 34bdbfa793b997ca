-- ===== src/Base/Options.antt =====
-- `Option` as the crate uses it: chains with `?`, and `CtOption::new`.
use mathlib.Core.Path.{◌≡◌, refl, ap}
use mathlib.Core.Bool.{Bool, true, false}
use mathlib.Core.Option.{Option, none, some}
use mathlib.Core.Option
use mathlib.Core.Logic.{◌⊎◌, inl, inr}

infixl 5 ◌>>=◌
abbrev pub ◌>>=◌ {ℓ κ} : {A : Type ℓ} {B : Type κ} → Option A → (A → Option B) → Option B
none >>= f = none
some a >>= f = f a

-- `CtOption::new(value, choice)`: the value is there exactly if the choice is true.
abbrev pub ct_option {ℓ} : {A : Type ℓ} → A → Bool → Option A
ct_option a true = some a
ct_option a false = none

pub some_inj {ℓ} : {A : Type ℓ} {a b : A} → some a ≡ some b → a ≡ b
some_inj {a} h = ap (λ o. Option.get_or o a) h

pub ct_option-some {ℓ} :
    {A : Type ℓ} (a : A) (c : Bool) {b : A} → ct_option a c ≡ some b → (c ≡ true) × (a ≡ b)
ct_option-some a true h = (refl, some_inj h)
ct_option-some a false h = cc

pub ct_option-none {ℓ} : {A : Type ℓ} (a : A) (c : Bool) → ct_option a c ≡ none → c ≡ false
ct_option-none a true h = cc
ct_option-none a false h = refl

pub >>=-eq-some {ℓ κ} :
    {A : Type ℓ} {B : Type κ} (m : Option A) (f : A → Option B) {b : B}
    → (m >>= f) ≡ some b
    → (a : A) × (m ≡ some a) × (f a ≡ some b)
>>=-eq-some none f h = cc
>>=-eq-some (some a) f h = (a, refl, h)

-- To split on an option and keep the equation.
pub Option-cases {ℓ} : {A : Type ℓ} (m : Option A) → (m ≡ none) ⊎ ((a : A) × (m ≡ some a))
Option-cases none = inl refl
Option-cases (some a) = inr (a, refl)
