-- ===== src/Edwards/Complete/Closed.antt =====
-- edwards.rs: the operations take valid points to valid points.
use ed301_eddsa.Base.{◌≡◌, ◌≢◌, ◌↔◌, refl, sym, ap, ◌∙◌, Bool, true, not, false_of_iff, ℕ, [], ◌∷◌}
use mathlib.Core.Bool.{false≢true}
use ed301_eddsa.Base.Bytes.{Bytes}
use ed301_eddsa.Parameters.{field_bits}
use ed301_eddsa.Ring.{◌⊕◌, ◌⊗◌, ◌⊖◌}
use ed301_eddsa.Ring.Terms.{var, zero_term, one_term, minus, ◌:+◌, ◌:-◌, ◌:*◌}
use ed301_eddsa.Ring.Solver.{solve}
use ed301_eddsa.Libraries.Bigint.{Bigint}
use ed301_eddsa.Field
use ed301_eddsa.Field.{FieldElement}
use ed301_eddsa.Field.Arith.{field_ring, is_zero_lem}
use ed301_eddsa.Field.Prime.{mul-ne-zero, inverse_exists, one_ne_zero}
use ed301_eddsa.Scalar.{Scalar}
use ed301_eddsa.Edwards.{
  EdwardsPoint, edwards_d, identity, is_valid, add, double, negate, multiply_by_cofactor,
  scalar_mul_with, scalar_mul, scalar_mul_encoded,
}
use ed301_eddsa.Edwards.Group.{double-neg_add}
use ed301_eddsa.Edwards.OnCurve.{
  IsOnCurve, add-IsOnCurve, double-IsOnCurve, negate-IsOnCurve, identity-IsOnCurve, rounds_from_inv,
}
use ed301_eddsa.Edwards.OnCurve.Valid.{is_valid-parts, is_valid→IsOnCurve, IsOnCurve→is_valid}
use ed301_eddsa.Edwards.Complete.{cross_never, one-square, minus_one-square}

module _ ⦃b : Bigint⦄ where
  pub record IsValid (p : EdwardsPoint) : Type 0 where
    pub on_curve : IsOnCurve p
    pub nonzero : p.z ≢ Field.zero_element

  pub is_valid_iff : (p : EdwardsPoint) → (is_valid p ≡ true) ↔ IsValid p
  is_valid_iff p = (
    λ h.
        let nonzero = λ (e : p.z ≡ Field.zero_element).
          false≢true (sym (is_valid-parts p h).0 ∙ (is_zero_lem p.z).1 e) in
        let (w, unit) = inverse_exists p.z nonzero in
        record { on_curve = is_valid→IsOnCurve p w unit h; nonzero = nonzero },
    λ k. IsOnCurve→is_valid k.on_curve ∙ ap not (false_of_iff _ (is_zero_lem p.z) k.nonzero),
  )

  identity-IsValid : IsValid identity
  unfolding identity
  identity-IsValid = record { on_curve = identity-IsOnCurve; nonzero = one_ne_zero }

  pub add-IsValid : {p q : EdwardsPoint} → IsValid p → IsValid q → IsValid (add p q)
  unfolding add
  add-IsValid {p} {q} h k = record {
    on_curve = add-IsOnCurve h.on_curve k.on_curve;
    nonzero = mul-ne-zero _ _ difference sum;
  }
    where
      dt : FieldElement
      dt = edwards_d ⊗ p.t ⊗ q.t

      zz : FieldElement
      zz = p.z ⊗ q.z

      difference : zz ⊖ dt ≢ field_ring.zero_elem
      difference e =
          cross_never field_ring.one_elem h.on_curve k.on_curve h.nonzero k.nonzero one-square (
            solve (zz ∷ dt ∷ []) (var 1) (one_term :* var 0 :- (var 0 :- var 1)) refl
            ∙ ap (λ t. field_ring.one_elem ⊗ zz ⊖ t) e
            ∙ solve (zz ∷ []) (one_term :* var 0 :- zero_term) (one_term :* var 0) refl)

      sum : zz ⊕ dt ≢ field_ring.zero_elem
      sum e =
          cross_never (field_ring.neg field_ring.one_elem) h.on_curve k.on_curve h.nonzero k.nonzero
            minus_one-square
            (solve (zz ∷ dt ∷ []) (var 1) (minus one_term :* var 0 :+ (var 0 :+ var 1)) refl
              ∙ ap (λ t. field_ring.neg field_ring.one_elem ⊗ zz ⊕ t) e
              ∙ solve (zz ∷ []) (minus one_term :* var 0 :+ zero_term) (minus one_term :* var 0)
                  refl)

  pub double-IsValid : {p : EdwardsPoint} → IsValid p → IsValid (double p)
  double-IsValid {p} h = record {
    on_curve = double-IsOnCurve h.on_curve;
    nonzero = λ e. (add-IsValid h h).nonzero (
        solve ((add p p).z ∷ []) (var 0) (minus (minus (var 0))) refl
        ∙ ap field_ring.neg (sym (double-neg_add p h.on_curve).2 ∙ e)
        ∙ solve [] (minus zero_term) zero_term refl);
  }

  negate-IsValid : {p : EdwardsPoint} → IsValid p → IsValid (negate p)
  unfolding negate
  negate-IsValid h = record { on_curve = negate-IsOnCurve h.on_curve; nonzero = h.nonzero }

  scalar_mul_with-IsValid :
      {p : EdwardsPoint} (bit : ℕ → Bool) → IsValid p → IsValid (scalar_mul_with p bit)
  unfolding scalar_mul_with
  scalar_mul_with-IsValid {p} bit h =
      rounds_from_inv IsValid p bit (λ acc k. double-IsValid k) (λ acc k. add-IsValid k h)
        field_bits identity identity-IsValid

  pub scalar_mul-IsValid : {p : EdwardsPoint} (s : Scalar) → IsValid p → IsValid (scalar_mul p s)
  unfolding scalar_mul
  scalar_mul-IsValid s h = scalar_mul_with-IsValid _ h

  -- Addition, doubling, negation, multiplication by the cofactor, and multiplication by a scalar
  -- or by an encoded scalar take points that pass the validity test to points that pass it, for
  -- any scalar and any bytes.
  pub operations-is_valid :
      (p q : EdwardsPoint) (s : Scalar) (bytes : Bytes)
      → is_valid p ≡ true
      → is_valid q ≡ true
      → (is_valid (add p q) ≡ true)
        × (is_valid (double p) ≡ true)
        × (is_valid (negate p) ≡ true)
        × (is_valid (multiply_by_cofactor p) ≡ true)
        × (is_valid (scalar_mul p s) ≡ true)
        × (is_valid (scalar_mul_encoded p bytes) ≡ true)
  unfolding multiply_by_cofactor scalar_mul scalar_mul_encoded
  operations-is_valid p q s bytes h k =
      let hp = (is_valid_iff p).0 h in
      let hq = (is_valid_iff q).0 k in
      (
        (is_valid_iff _).1 (add-IsValid hp hq),
        (is_valid_iff _).1 (double-IsValid hp),
        (is_valid_iff _).1 (negate-IsValid hp),
        (is_valid_iff _).1 (double-IsValid (double-IsValid hp)),
        (is_valid_iff _).1 (scalar_mul_with-IsValid _ hp),
        (is_valid_iff _).1 (scalar_mul_with-IsValid _ hp),
      )
