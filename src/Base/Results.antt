-- ===== src/Base/Results.antt =====
-- `Result`, with `?`, `ok_or`, `map_err` and the conversion of a slice to an array.
use Prim.Native.Nat.{ℕ}
use mathlib.Core.Path.{◌≡◌, refl, sym, ap}
use mathlib.Core.Logic.{◌⊎◌, inl, inr}
use mathlib.Core.Bool.{Bool, true, false}
use mathlib.Core.Option.{Option, none, some}
use native.Mathlib.Omega.{arith}
use ed301_eddsa.Base.Tests.{◌==◌, if◌then◌else◌}
use ed301_eddsa.Base.Lists.{length}
use ed301_eddsa.Base.Bytes.{Bytes}

pub data Result {ℓ} (E : Type 0) (A : Type ℓ) : Type ℓ where
  ok : A → Result E A
  err : E → Result E A

infixl 5 ◌>>=◌
abbrev pub ◌>>=◌ {ℓ κ} :
    {E : Type 0} {A : Type ℓ} {B : Type κ} → Result E A → (A → Result E B) → Result E B
ok a >>= f = f a
err e >>= f = err e

abbrev pub ok_or {ℓ} : {E : Type 0} {A : Type ℓ} → Option A → E → Result E A
ok_or none e = err e
ok_or (some a) e = ok a

abbrev pub map_err {ℓ} : {E F : Type 0} {A : Type ℓ} → (E → F) → Result E A → Result F A
map_err f (ok a) = ok a
map_err f (err e) = err (f e)

-- `if condition { return Err(error); }` before the rest.
abbrev pub fail_if {ℓ} : {E : Type 0} {A : Type ℓ} → Bool → E → Result E A → Result E A
fail_if true e rest = err e
fail_if false e rest = rest

abbrev pub is_ok {ℓ} : {E : Type 0} {A : Type ℓ} → Result E A → Bool
is_ok (ok a) = true
is_ok (err e) = false

-- `slice.try_into()` for an array of `n` bytes.
abbrev pub to_array : ℕ → Bytes → Option Bytes
to_array n bytes = if length bytes == n then some bytes else none

abbrev value_or {ℓ} : {E : Type 0} {A : Type ℓ} → A → Result E A → A
value_or a (ok x) = x
value_or a (err e) = a

abbrev error_or {ℓ} : {E : Type 0} {A : Type ℓ} → E → Result E A → E
error_or e (ok x) = e
error_or e (err f) = f

pub ok_inj {ℓ} : {E : Type 0} {A : Type ℓ} {a b : A} → ◌≡◌ {A = Result E A} (ok a) (ok b) → a ≡ b
ok_inj {a} h = ap (value_or a) h

pub >>=-eq-ok {ℓ κ} :
    {E : Type 0} {A : Type ℓ} {C : Type κ} (first : Result E A) (next : A → Result E C) {c : C}
    → first >>= next ≡ ok c
    → (value : A) × (first ≡ ok value) × (next value ≡ ok c)
>>=-eq-ok (ok value) next found = (value, refl, found)
>>=-eq-ok (err e) next found = cc

pub ok_or-ok {ℓ} :
    {E : Type 0} {A : Type ℓ} (m : Option A) (e : E) {a : A} → ok_or m e ≡ ok a → m ≡ some a
ok_or-ok none e h = cc
ok_or-ok (some a) e h = ap some (ok_inj h)

pub map_err-ok {ℓ} :
    {E F : Type 0} {A : Type ℓ} (f : E → F) (m : Result E A) {a : A} → map_err f m ≡ ok a → m ≡ ok a
map_err-ok f (ok a) h = ap ok (ok_inj h)
map_err-ok f (err e) h = cc

pub fail_if-ok {ℓ} :
    {E : Type 0} {A : Type ℓ} (c : Bool) (e : E) (m : Result E A) {a : A}
    → fail_if c e m ≡ ok a
    → (c ≡ false) × (m ≡ ok a)
fail_if-ok true e m h = cc
fail_if-ok false e m h = (refl, h)

pub to_array-some :
    (n : ℕ) (bytes : Bytes) {a : Bytes}
    → to_array n bytes ≡ some a
    → (length bytes ≡ n) × (a ≡ bytes)
to_array-some n bytes h = ground arith

pub to_array_exact : (n : ℕ) (bytes : Bytes) → length bytes ≡ n → to_array n bytes ≡ some bytes
to_array_exact n bytes h = ground arith

pub err_inj {ℓ} : {E : Type 0} {A : Type ℓ} {e f : E} → ◌≡◌ {A = Result E A} (err e) (err f) → e ≡ f
err_inj {e} h = ap (error_or e) h

-- A chain fails in its first part or in the rest.
pub >>=-eq-err {ℓ κ} :
    {E : Type 0} {A : Type ℓ} {B : Type κ} (m : Result E A) (f : A → Result E B) {e : E}
    → (m >>= f) ≡ err e
    → (m ≡ err e) ⊎ ((a : A) × (m ≡ ok a) × (f a ≡ err e))
>>=-eq-err (ok a) f h = inr (a, refl, h)
>>=-eq-err (err e) f h = inl (ap err (err_inj h))

pub ok_or-err {ℓ} :
    {E : Type 0} {A : Type ℓ} (m : Option A) (e : E) {f : E} → ok_or m e ≡ err f → f ≡ e
ok_or-err none e h = sym (err_inj h)
ok_or-err (some a) e h = cc

pub fail_if-err {ℓ} :
    {E : Type 0} {A : Type ℓ} (c : Bool) (e : E) (m : Result E A) {f : E}
    → fail_if c e m ≡ err f
    → (f ≡ e) ⊎ (m ≡ err f)
fail_if-err true e m h = inl (sym (err_inj h))
fail_if-err false e m h = inr h

-- `ok_or(e)?` fails with `e`, unless the rest fails.
pub fails_with {ℓ κ} :
    {E : Type 0} {A : Type ℓ} {B : Type κ} {e f : E} (m : Option A) {k : A → Result E B}
    → (ok_or m e >>= k) ≡ err f
    → ((a : A) → k a ≡ err f → f ≡ e)
    → f ≡ e
fails_with none h rest = sym (err_inj h)
fails_with (some a) h rest = rest a h

pub ok-not_err {ℓ} :
    {E : Type 0} {A : Type ℓ} {P : Type 0} {a : A} {e : E} → ◌≡◌ {A = Result E A} (ok a) (err e) → P
ok-not_err h = cc

-- The same for a guard, for a change of the error, and for a whole chain.
pub fail_if_with {ℓ} :
    {E : Type 0} {A : Type ℓ} {e f : E} (c : Bool) {m : Result E A}
    → fail_if c e m ≡ err f
    → (m ≡ err f → f ≡ e)
    → f ≡ e
fail_if_with true h rest = sym (err_inj h)
fail_if_with false h rest = rest h

pub chain_with {ℓ κ} :
    {E : Type 0} {A : Type ℓ} {B : Type κ} {e f : E} (m : Result E A) {k : A → Result E B}
    → (m >>= k) ≡ err f
    → (m ≡ err f → f ≡ e)
    → ((a : A) → m ≡ ok a → k a ≡ err f → f ≡ e)
    → f ≡ e
chain_with (ok a) h first rest = rest a refl h
chain_with (err e) h first rest = first (ap err (err_inj h))

pub map_err_const {ℓ} :
    {E F : Type 0} {A : Type ℓ} {e f : F} (m : Result E A) → map_err (λ _. e) m ≡ err f → f ≡ e
map_err_const (ok a) h = ok-not_err h
map_err_const (err e) h = sym (err_inj h)

-- To split on a result and keep the equation.
pub Result-cases {ℓ} :
    {E : Type 0} {A : Type ℓ} (m : Result E A) → ((a : A) × (m ≡ ok a)) ⊎ ((e : E) × (m ≡ err e))
Result-cases (ok a) = inl (a, refl)
Result-cases (err e) = inr (e, refl)
