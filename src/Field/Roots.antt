-- ===== src/Field/Roots.antt =====
-- field.rs: `sqrt` returns a root of every square, and none of anything else.
use ed301_eddsa.Base.{
  ◌-◌, ◌*◌, ◌%◌, arith, ◌≡◌, ◌≢◌, ◌↔◌, ◌⊎◌, inl, inr, refl, sym, ap, ◌∙◌, some, ct_option, [], ◌∷◌,
}
use ed301_eddsa.Parameters.{field_modulus}
use ed301_eddsa.Parameters
use ed301_eddsa.Numbers.Powers.{pow, power_lem}
use ed301_eddsa.Numbers.Fermat.{root_of_square, no_root}
use ed301_eddsa.Numbers.FieldPrime.{field_modulus-IsPrime}
use ed301_eddsa.Ring.{◌⊕◌, ◌⊗◌, ◌⊖◌}
use ed301_eddsa.Ring.Terms.{var, zero_term, one_term, minus, squared, ◌:+◌, ◌:-◌, ◌:*◌}
use ed301_eddsa.Ring.Solver.{solve}
use ed301_eddsa.Libraries.Bigint.{Bigint}
use ed301_eddsa.Libraries.Montgomery.Residues.{ext}
use ed301_eddsa.Field.{
  FieldElement, sqrt_exponent, sqrt_exponent_bits, zero_element, from_u64, mul, neg, square, sqrt,
}
use ed301_eddsa.Field.Arith.{field_ring, ct_eq_lem, sqrt-square}
use ed301_eddsa.Field.Prime.{mul-eq-zero, zero_or_not, inverse_exists}

module _ ⦃b : Bigint⦄ where
  open b.field_form use {retrieve}

  candidate : FieldElement → FieldElement
  candidate x = b.field_form.pow_bounded_exp x sqrt_exponent sqrt_exponent_bits

  candidate-root : (r : FieldElement) → square (candidate (square r)) ≡ square r
  unfolding square candidate
  candidate-root r = ext b.field_form.base _ _ (
      b.field_form.retrieve-square (candidate (square r))
      ∙ ap (λ t. t * t % field_modulus)
          (b.field_form.pow_bounded_exp_lem (square r) sqrt_exponent sqrt_exponent_bits
              (omega arith)
            ∙ ap (λ t. pow t sqrt_exponent % field_modulus) (b.field_form.retrieve-square r))
      ∙ root_of_square (field_modulus - 1) sqrt_exponent (retrieve r) field_modulus-IsPrime refl
      ∙ sym (b.field_form.retrieve-square r))

  -- The two roots of a square.
  pub two_roots : (r c : FieldElement) → square c ≡ square r → (c ≡ r) ⊎ (c ≡ neg r)
  two_roots r c h = elim (mul-eq-zero (c ⊖ r) (c ⊕ r) product) [
    | inl e ↦ inl (
        solve (c ∷ r ∷ []) (var 0) ((var 0 :- var 1) :+ var 1) refl
        ∙ ap (λ t. t ⊕ r) e
        ∙ solve (r ∷ []) (zero_term :+ var 0) (var 0) refl)
    | inr e ↦ inr (
        solve (c ∷ r ∷ []) (var 0) ((var 0 :+ var 1) :- var 1) refl
        ∙ ap (λ t. t ⊖ r) e
        ∙ solve (r ∷ []) (zero_term :- var 0) (minus (var 0)) refl)
  ]
    where
      product : mul (c ⊖ r) (c ⊕ r) ≡ zero_element
      product =
          solve (c ∷ r ∷ []) ((var 0 :- var 1) :* (var 0 :+ var 1))
            (squared (var 0) :- squared (var 1)) refl
          ∙ ap (λ t. t ⊖ square r) h
          ∙ solve (r ∷ []) (squared (var 0) :- squared (var 0)) zero_term refl

  sqrt-candidate : (r : FieldElement) → sqrt (square r) ≡ some (candidate (square r))
  unfolding sqrt candidate
  sqrt-candidate r = ap (ct_option (candidate (square r))) ((ct_eq_lem _ _).1 (candidate-root r))

  -- The square root of a square is returned, and is one of its two roots.
  pub sqrt_total :
      (r : FieldElement) → (c : FieldElement) × (sqrt (square r) ≡ some c) × ((c ≡ r) ⊎ (c ≡ neg r))
  sqrt_total r = (
    candidate (square r),
    sqrt-candidate r,
    two_roots r (candidate (square r)) (candidate-root r),
  )

  -- The coefficient d is no square, and a is one.
  pub no_root_of_d : (r : FieldElement) → square r ≢ from_u64 Parameters.edwards_d
  unfolding square from_u64
  no_root_of_d r h =
      no_root field_modulus
        2037035976334486086268445688409378161051468393665936250636140132441731242705986332007596505
        301 (retrieve r) field_modulus-IsPrime refl (omega arith)
        (sym (
          power_lem field_modulus 301 301
            2037035976334486086268445688409378161051468393665936250636140132441731242705986332007596505
            (omega arith)))
        (sym (b.field_form.retrieve-square r) ∙ ap retrieve h ∙ b.field_form.retrieve-new 301)

  pub root_of_a : square (from_u64 45677) ≡ from_u64 Parameters.edwards_a
  unfolding square from_u64
  root_of_a = ext b.field_form.base _ _ (
      b.field_form.retrieve-square _
      ∙ ap (λ t. t * t % field_modulus) (b.field_form.retrieve-new 45677)
      ∙ sym (b.field_form.retrieve-new Parameters.edwards_a))

  -- A square root is returned exactly for the squares.
  pub sqrt_iff :
      (x : FieldElement)
      → ((c : FieldElement) × (sqrt x ≡ some c)) ↔ ((r : FieldElement) × (square r ≡ x))
  sqrt_iff x = (
    λ (c, h). (c, sqrt-square x c h),
    λ (r, h). let (c, e, root) = sqrt_total r in (c, ap sqrt (sym h) ∙ e),
  )

  -- Where d t^2 is a square, t is zero.
  pub zero_of_d_square :
      (t y : FieldElement) → from_u64 Parameters.edwards_d ⊗ square t ≡ square y → t ≡ zero_element
  zero_of_d_square t y h = elim (zero_or_not t) [
    | inl e ↦ e
    | inr other ↦
        let (w, one) = inverse_exists t other in
        absurd (
          no_root_of_d (y ⊗ w) (
            solve (y ∷ w ∷ []) (squared (var 0 :* var 1)) (squared (var 0) :* squared (var 1)) refl
            ∙ ap (λ s. s ⊗ square w) (sym h)
            ∙ solve (from_u64 Parameters.edwards_d ∷ t ∷ w ∷ [])
                (var 0 :* squared (var 1) :* squared (var 2)) (var 0 :* squared (var 1 :* var 2))
                refl
            ∙ ap (λ s. from_u64 Parameters.edwards_d ⊗ square s) one
            ∙ solve (from_u64 Parameters.edwards_d ∷ []) (var 0 :* squared one_term) (var 0) refl))
  ]

  pub two_ne_zero : from_u64 2 ≢ zero_element
  unfolding from_u64 zero_element
  two_ne_zero h =
      refuted (sym (b.field_form.retrieve-new 2) ∙ ap retrieve h ∙ b.field_form.retrieve-zero)
    where
      refuted : 2 % field_modulus ≡ 0 % field_modulus → ⊥
      refuted e = omega (arith, e)
