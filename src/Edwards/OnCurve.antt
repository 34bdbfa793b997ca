-- ===== src/Edwards/OnCurve.antt =====
-- edwards.rs: the invariant of the points, X Y = Z T and a X^2 + Y^2 = Z^2 + d T^2, and the operations.
pub mod Identities
pub mod Sums
pub mod Valid
use ed301_eddsa.Base.{ℕ, zero, suc, ◌≡◌, refl, sym, ap, ap₂, ◌∙◌, Bool, true, false, List, [], ◌∷◌}
use ed301_eddsa.Base.{if◌then◌else◌}
use ed301_eddsa.Base.Bytes.{Bytes}
use ed301_eddsa.Ring.{CommRing, ◌⊕◌, ◌⊗◌, ◌⊖◌}
use ed301_eddsa.Ring.Terms.{var, zero_term, one_term, minus, squared, ◌:+◌, ◌:-◌, ◌:*◌}
use ed301_eddsa.Ring.Solver.{solve}
use ed301_eddsa.Libraries.Bigint.{Bigint}
use ed301_eddsa.Parameters.{field_bits}
use ed301_eddsa.Field
use ed301_eddsa.Field.{FieldElement}
use ed301_eddsa.Field.Arith.{field_ring, two-eq, conditional_select_lem}
use ed301_eddsa.Scalar.{Scalar}
use ed301_eddsa.Edwards.{
  EdwardsPoint, edwards_a, edwards_d, two, identity, basepoint, add, double, negate,
  conditional_select, multiply_by_cofactor, rounds_from, scalar_mul_with, scalar_mul,
  scalar_mul_encoded,
}
use Identities.{Curve}
use Sums.{add-Curve, double-Curve, extended_product}

module _ ⦃b : Bigint⦄ where
  pub record IsOnCurve (p : EdwardsPoint) : Type 0 where
    pub extended : Field.mul p.x p.y ≡ Field.mul p.z p.t
    pub curve : Curve edwards_a edwards_d p.x p.y p.z p.t

  pub identity-IsOnCurve : IsOnCurve identity
  unfolding identity
  identity-IsOnCurve = record {
    extended = solve [] (zero_term :* one_term) (one_term :* zero_term) refl;
    curve =
        solve (edwards_a ∷ edwards_d ∷ []) (var 0 :* squared zero_term :+ squared one_term)
          (squared one_term :+ var 1 :* squared zero_term) refl;
  }

  pub add-IsOnCurve : {p q : EdwardsPoint} → IsOnCurve p → IsOnCurve q → IsOnCurve (add p q)
  unfolding add
  add-IsOnCurve {p} {q} h k = record {
    extended = extended_product _ _ _ _;
    curve =
        add-Curve edwards_a edwards_d p.x p.y p.z p.t q.x q.y q.z q.t h.curve k.curve h.extended
          k.extended;
  }

  double_parts :
      (p : EdwardsPoint)
      → IsOnCurve p
      → (c : FieldElement) → c ≡ field_ring.one_elem ⊕ field_ring.one_elem
      → Curve edwards_a edwards_d
          ((Field.square (p.x ⊕ p.y) ⊖ Field.square p.x ⊖ Field.square p.y)
            ⊗ (edwards_a ⊗ Field.square p.x ⊕ Field.square p.y ⊖ c ⊗ Field.square p.z))
          ((edwards_a ⊗ Field.square p.x ⊕ Field.square p.y)
            ⊗ (edwards_a ⊗ Field.square p.x ⊖ Field.square p.y))
          ((edwards_a ⊗ Field.square p.x ⊕ Field.square p.y ⊖ c ⊗ Field.square p.z)
            ⊗ (edwards_a ⊗ Field.square p.x ⊕ Field.square p.y))
          ((Field.square (p.x ⊕ p.y) ⊖ Field.square p.x ⊖ Field.square p.y)
            ⊗ (edwards_a ⊗ Field.square p.x ⊖ Field.square p.y))
  double_parts p h c e = rw e (double-Curve edwards_a edwards_d p.x p.y p.z p.t h.curve h.extended)

  pub two_lem : two ≡ field_ring.one_elem ⊕ field_ring.one_elem
  unfolding two
  two_lem = two-eq

  pub double-IsOnCurve : {p : EdwardsPoint} → IsOnCurve p → IsOnCurve (double p)
  unfolding double
  double-IsOnCurve {p} h = record {
    extended = extended_product _ _ _ _;
    curve = double_parts p h two two_lem;
  }

  pub negate-IsOnCurve : {p : EdwardsPoint} → IsOnCurve p → IsOnCurve (negate p)
  unfolding negate
  negate-IsOnCurve {p} h = record {
    extended =
        solve (p.x ∷ p.y ∷ []) (minus (var 0) :* var 1) (minus (var 0 :* var 1)) refl
        ∙ ap Field.neg h.extended
        ∙ solve (p.z ∷ p.t ∷ []) (minus (var 0 :* var 1)) (var 0 :* minus (var 1)) refl;
    curve =
        solve (edwards_a ∷ p.x ∷ p.y ∷ []) (var 0 :* squared (minus (var 1)) :+ squared (var 2))
          (var 0 :* squared (var 1) :+ squared (var 2)) refl
        ∙ h.curve
        ∙ solve (edwards_d ∷ p.z ∷ p.t ∷ []) (squared (var 1) :+ var 0 :* squared (var 2))
            (squared (var 1) :+ var 0 :* squared (minus (var 2))) refl;
  }

  -- A selection is one of the two points.
  pub select_lem : (p q : EdwardsPoint) (c : Bool) → conditional_select p q c ≡ (if c then q else p)
  unfolding conditional_select
  select_lem p q true = λ i. record {
    x = conditional_select_lem p.x q.x true i;
    y = conditional_select_lem p.y q.y true i;
    z = conditional_select_lem p.z q.z true i;
    t = conditional_select_lem p.t q.t true i;
  }
  select_lem p q false = λ i. record {
    x = conditional_select_lem p.x q.x false i;
    y = conditional_select_lem p.y q.y false i;
    z = conditional_select_lem p.z q.z false i;
    t = conditional_select_lem p.t q.t false i;
  }

  -- The induction over the rounds, for any property of points that the formulas keep.
  pub rounds_from_inv {ℓ} :
      (P : EdwardsPoint → Type ℓ) (self : EdwardsPoint) (bit : ℕ → Bool)
      → ((acc : EdwardsPoint) → P acc → P (double acc))
      → ((acc : EdwardsPoint) → P acc → P (add acc self))
      → (n : ℕ) (acc : EdwardsPoint) → P acc
      → P (rounds_from self bit n acc)
  unfolding rounds_from
  rounds_from_inv P self bit keeps adds zero acc h = h
  rounds_from_inv P self bit keeps adds (suc n) acc h =
      rounds_from_inv P self bit keeps adds n _
        (rw (select_lem (double acc) (add (double acc) self) (bit n)) (chosen (bit n)))
    where
      chosen : (c : Bool) → P (if c then add (double acc) self else double acc)
      chosen true = adds (double acc) (keeps acc h)
      chosen false = keeps acc h

  pub scalar_mul_with-IsOnCurve :
      {p : EdwardsPoint} (bit : ℕ → Bool) → IsOnCurve p → IsOnCurve (scalar_mul_with p bit)
  unfolding scalar_mul_with
  scalar_mul_with-IsOnCurve {p} bit h =
      rounds_from_inv IsOnCurve p bit (λ acc k. double-IsOnCurve k) (λ acc k. add-IsOnCurve k h)
        field_bits identity identity-IsOnCurve

  -- Addition, doubling, negation, multiplication by the cofactor, and multiplication by a scalar
  -- or by an encoded scalar take points of the curve to points of the curve, for any scalar and
  -- any bytes.
  pub operations-IsOnCurve :
      {p q : EdwardsPoint} (s : Scalar) (bytes : Bytes)
      → IsOnCurve p
      → IsOnCurve q
      → IsOnCurve (add p q)
        × IsOnCurve (double p)
        × IsOnCurve (negate p)
        × IsOnCurve (multiply_by_cofactor p)
        × IsOnCurve (scalar_mul p s)
        × IsOnCurve (scalar_mul_encoded p bytes)
  unfolding multiply_by_cofactor scalar_mul scalar_mul_encoded
  operations-IsOnCurve s bytes h k = (
    add-IsOnCurve h k,
    double-IsOnCurve h,
    negate-IsOnCurve h,
    double-IsOnCurve (double-IsOnCurve h),
    scalar_mul_with-IsOnCurve _ h,
    scalar_mul_with-IsOnCurve _ h,
  )
