-- ===== src/Ring.antt =====
-- Commutative rings: the laws that the field and the scalars are shown to meet, and that the
-- curve formulas are proved from.
pub mod Terms
pub mod Solver
pub mod Laws
use ed301_eddsa.Base.{◌≡◌}

pub record CommRing (A : Type 0) : Type 0 where
  pub zero_elem : A
  pub one_elem : A
  pub add : A → A → A
  pub mul : A → A → A
  pub neg : A → A
  pub sub : A → A → A
  pub square : A → A
  pub sub_lem : (x y : A) → sub x y ≡ add x (neg y)
  pub square_lem : (x : A) → square x ≡ mul x x
  pub neg-add : (x : A) → add (neg x) x ≡ zero_elem
  pub zero-add : (x : A) → add zero_elem x ≡ x
  pub add_comm : (x y : A) → add x y ≡ add y x
  pub add_assoc : (x y z : A) → add (add x y) z ≡ add x (add y z)
  pub one-mul : (x : A) → mul one_elem x ≡ x
  pub mul_comm : (x y : A) → mul x y ≡ mul y x
  pub mul_assoc : (x y z : A) → mul (mul x y) z ≡ mul x (mul y z)
  pub mul-add : (x y z : A) → mul x (add y z) ≡ add (mul x y) (mul x z)

module _ {A : Type 0} ⦃r : CommRing A⦄ where
  infixl 65 ◌⊕◌ ◌⊖◌
  infixl 70 ◌⊗◌
  abbrev pub ◌⊕◌ : A → A → A
  a ⊕ b = r.add a b

  abbrev pub ◌⊗◌ : A → A → A
  a ⊗ b = r.mul a b

  abbrev pub ◌⊖◌ : A → A → A
  a ⊖ b = r.sub a b
