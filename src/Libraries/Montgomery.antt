-- ===== src/Libraries/Montgomery.antt =====
-- What `const_monty_form!` of crypto-bigint declares: integers modulo `m` behind a representation
-- of the library's own. `CtOption` is `Option` and `Choice` is `Bool`.
pub mod Residues
use ed301_eddsa.Base.{
  ℕ, ◌+◌, ◌-◌, ◌*◌, ◌%◌, ◌^◌, ◌<◌, ◌≡◌, ◌≢◌, ◌↔◌, Bool, true, false, Option, none, some,
}
use ed301_eddsa.Numbers.Powers.{pow}

pub record MontyArith (m : ℕ) : Type 1 where
  pub Elem : Type 0
  pub new : ℕ → Elem
  pub retrieve : Elem → ℕ
  pub zero_elem : Elem
  pub one_elem : Elem
  pub add : Elem → Elem → Elem
  pub sub : Elem → Elem → Elem
  pub mul : Elem → Elem → Elem
  pub neg : Elem → Elem
  pub square : Elem → Elem
  pub retrieve-lt : (a : Elem) → retrieve a < m
  pub retrieve-new : (x : ℕ) → retrieve (new x) ≡ x % m
  pub new-retrieve : (a : Elem) → new (retrieve a) ≡ a
  pub retrieve-zero : retrieve zero_elem ≡ 0 % m
  pub retrieve-one : retrieve one_elem ≡ 1 % m
  pub retrieve-add : (a b : Elem) → retrieve (add a b) ≡ (retrieve a + retrieve b) % m
  pub retrieve-sub : (a b : Elem) → retrieve (sub a b) ≡ (retrieve a + (m - retrieve b)) % m
  pub retrieve-mul : (a b : Elem) → retrieve (mul a b) ≡ (retrieve a * retrieve b) % m
  pub retrieve-neg : (a : Elem) → retrieve (neg a) ≡ (m - retrieve a) % m
  pub retrieve-square : (a : Elem) → retrieve (square a) ≡ (retrieve a * retrieve a) % m

pub record MontyForm (m : ℕ) : Type 1 where
  pub base : MontyArith m
  pub open base use *
  pub invert : Elem → Option Elem
  -- `pow_bounded_exp(exponent, bits)`, the power by the low bits of the exponent.
  pub pow_bounded_exp : Elem → ℕ → ℕ → Elem
  pub pow_bounded_exp_lem :
      (a : Elem) (e k : ℕ) → e < 2 ^ k → retrieve (pow_bounded_exp a e k) ≡ pow (retrieve a) e % m
  pub ct_eq : Elem → Elem → Bool
  -- The value of the first argument after `ct_assign(second, choice)`.
  pub ct_assign : Elem → Elem → Bool → Elem
  pub invert-some : (a b : Elem) → invert a ≡ some b → mul a b ≡ one_elem
  pub invert-none : (a b : Elem) → invert a ≡ none → mul a b ≢ one_elem
  pub ct_eq_iff : (a b : Elem) → (ct_eq a b ≡ true) ↔ (a ≡ b)
  pub ct_assign-true : (a b : Elem) → ct_assign a b true ≡ b
  pub ct_assign-false : (a b : Elem) → ct_assign a b false ≡ a
