-- ===== src/Field/Prime.antt =====
-- field.rs: the modulus is prime, so the elements are a field, and `invert` misses only zero.
use native.Mathlib.Nat.{mod-eq_of_lt}
use ed301_eddsa.Base.{
  ◌*◌, ◌%◌, arith, ◌≡◌, ◌≢◌, ◌↔◌, ◌⊎◌, inl, inr, refl, sym, ap, ◌∙◌, Option, none, some, Bool-cases,
  [], ◌∷◌,
}
use ed301_eddsa.Parameters.{field_modulus}
use ed301_eddsa.Numbers.Powers.{mul-mod_right}
use ed301_eddsa.Numbers.Primes.{euclid_lem, inverse_modulo}
use ed301_eddsa.Numbers.FieldPrime.{field_modulus-IsPrime}
use ed301_eddsa.Ring.{◌⊕◌, ◌⊖◌}
use ed301_eddsa.Ring.Terms.{var, zero_term, ◌:+◌, ◌:-◌, ◌:*◌}
use ed301_eddsa.Ring.Solver.{solve}
use ed301_eddsa.Ring.Laws.{zero-mul}
use ed301_eddsa.Libraries.Bigint.{Bigint}
use ed301_eddsa.Libraries.Montgomery.Residues.{ext}
use ed301_eddsa.Field.{FieldElement, zero_element, one_element, mul, invert, is_zero}
use ed301_eddsa.Field.Arith.{field_ring, is_zero_lem, invert-inverse, invert_iff}

module _ ⦃b : Bigint⦄ where
  open b.field_form use {retrieve, new}

  pub zero_or_not : (x : FieldElement) → (x ≡ zero_element) ⊎ (x ≢ zero_element)
  zero_or_not x = elim (Bool-cases (is_zero x)) [
    | inl h ↦ inl ((is_zero_lem x).0 h)
    | inr h ↦ inr λ e. cc (h, (is_zero_lem x).1 e)
  ]

  retrieve_zero_iff : (x : FieldElement) → (retrieve x % field_modulus ≡ 0) ↔ (x ≡ zero_element)
  unfolding zero_element
  retrieve_zero_iff x = (
    λ h.
        ext b.field_form.base _ _
          (sym (mod-eq_of_lt (b.field_form.retrieve-lt x)) ∙ h ∙ sym b.field_form.retrieve-zero),
    λ e.
        ap (λ t. retrieve t % field_modulus) e
        ∙ ap (λ t. t % field_modulus) b.field_form.retrieve-zero,
  )

  -- A product is zero only if a factor is.
  pub mul-eq-zero :
      (x y : FieldElement) → mul x y ≡ zero_element → (x ≡ zero_element) ⊎ (y ≡ zero_element)
  unfolding mul zero_element
  mul-eq-zero x y h = elim (euclid_lem (retrieve x) (retrieve y) field_modulus-IsPrime product) [
    | inl e ↦ inl ((retrieve_zero_iff x).0 e)
    | inr e ↦ inr ((retrieve_zero_iff y).0 e)
  ]
    where
      product : retrieve x * retrieve y % field_modulus ≡ 0
      product = sym (b.field_form.retrieve-mul x y) ∙ ap retrieve h ∙ b.field_form.retrieve-zero

  pub mul-ne-zero :
      (x y : FieldElement) → x ≢ zero_element → y ≢ zero_element → mul x y ≢ zero_element
  mul-ne-zero x y hx hy h = elim (mul-eq-zero x y h) [ inl e ↦ hx e | inr e ↦ hy e ]

  pub one_ne_zero : one_element ≢ zero_element
  unfolding one_element zero_element
  one_ne_zero h =
      one_zero (sym b.field_form.retrieve-one ∙ ap retrieve h ∙ b.field_form.retrieve-zero)
    where
      one_zero : 1 % field_modulus ≡ 0 % field_modulus → ⊥
      one_zero e = omega (arith, e)

  pub inverse_exists :
      (x : FieldElement) → x ≢ zero_element → (y : FieldElement) × (mul x y ≡ one_element)
  unfolding mul one_element
  inverse_exists x h =
      let (y, one) =
        inverse_modulo (retrieve x) field_modulus-IsPrime (λ e. h ((retrieve_zero_iff x).0 e)) in
      (
        new y,
        ext b.field_form.base _ _ (
            b.field_form.retrieve-mul x (new y)
            ∙ ap (λ t. retrieve x * t % field_modulus) (b.field_form.retrieve-new y)
            ∙ mul-mod_right (retrieve x) y field_modulus
            ∙ one
            ∙ sym (mod-eq_of_lt field_modulus-IsPrime.above)
            ∙ sym b.field_form.retrieve-one),
      )

  -- Every element but zero has an inverse, which invert returns; for zero it returns none.
  pub invert_total :
      (x : FieldElement)
      → ((x ≡ zero_element) × (invert x ≡ none))
        ⊎ ((x ≢ zero_element)
            × ((y : FieldElement) × (invert x ≡ some y) × (mul x y ≡ one_element)))
  invert_total x = elim (zero_or_not x) [
    | inl e ↦ inl (e, none_of (invert x) refl e)
    | inr h ↦ let (y, one) = inverse_exists x h in inr (h, (y, (invert_iff x y).1 one, one))
  ]
    where
      none_of : (r : Option FieldElement) → invert x ≡ r → x ≡ zero_element → invert x ≡ none
      none_of none k e = k
      none_of (some y) k e =
          absurd (one_ne_zero (sym ((invert-inverse x).0 y k) ∙ ap (λ t. mul t y) e ∙ zero-mul y))

  pub mul_cancel : (x y z : FieldElement) → z ≢ zero_element → mul z x ≡ mul z y → x ≡ y
  mul_cancel x y z h e = elim (mul-eq-zero z (x ⊖ y) zero) [
    | inl bad ↦ absurd (h bad)
    | inr same ↦
        solve (x ∷ y ∷ []) (var 0) ((var 0 :- var 1) :+ var 1) refl
        ∙ ap (λ t. t ⊕ y) same
        ∙ solve (y ∷ []) (zero_term :+ var 0) (var 0) refl
  ]
    where
      zero : mul z (x ⊖ y) ≡ zero_element
      zero =
          solve (x ∷ y ∷ z ∷ []) (var 2 :* (var 0 :- var 1)) (var 2 :* var 0 :- var 2 :* var 1) refl
          ∙ ap (λ t. t ⊖ mul z y) e
          ∙ solve (mul z y ∷ []) (var 0 :- var 0) zero_term refl
