-- ===== src/Edwards/Law/Refined.antt =====
-- edwards.rs: the operations on extended points implement the affine group of the curve.
use native.Mathlib.Nat.{pow-zero, pow-suc}
use ed301_eddsa.Base.{
  ℕ, zero, suc, ◌+◌, ◌/◌, ◌%◌, ◌^◌, ◌<◌, ◌==◌, ==_iff, arith, false, ◌≡◌, refl, sym, ap, ◌∙◌, true,
  Bool-cases, inl, inr, [], ◌∷◌, if◌then◌else◌,
}
use ed301_eddsa.Ring.{◌⊗◌}
use ed301_eddsa.Ring.Terms.{var, one_term, minus, ◌:*◌}
use ed301_eddsa.Ring.Solver.{solve}
use ed301_eddsa.Parameters.{field_bits}
use ed301_eddsa.Libraries.Bigint.{Bigint}
use ed301_eddsa.Field.{FieldElement}
use ed301_eddsa.Field.Arith.{field_ring}
use ed301_eddsa.Edwards.{
  EdwardsPoint, identity, add, double, negate, multiply_by_cofactor, scalar_mul,
}
use ed301_eddsa.Edwards.OnCurve.{
  IsOnCurve, identity-IsOnCurve, add-IsOnCurve, double-IsOnCurve, negate-IsOnCurve,
  scalar_mul_with-IsOnCurve,
}
use ed301_eddsa.Edwards.Affine.{
  Affine, Represents, identity-Represents, add-Represents, double-Represents,
}
use ed301_eddsa.Edwards.Scaled.{IsScaled}
use ed301_eddsa.Edwards.Multiples.{multiple, scalar_mul-multiple}
use ed301_eddsa.Edwards.Complete.Closed.{IsValid}
use ed301_eddsa.Edwards.Law.{
  OnAffine, sum, neutral, opposite, sum-IsSum, Represents-OnAffine, inverse_or_zero,
  inverse_or_zero-unit,
}
use ed301_eddsa.Edwards.Law.Times.{times, times-zero, times-suc, times-add}

module _ ⦃b : Bigint⦄ where
  -- A point of the curve that stands for an affine point.
  pub record Stands (p : EdwardsPoint) (a : Affine) : Type 0 where
    pub on_curve : IsOnCurve p
    pub represents : Represents p a

  pub Stands-OnAffine : {p : EdwardsPoint} {a : Affine} → Stands p a → OnAffine a
  Stands-OnAffine h = Represents-OnAffine h.on_curve h.represents

  pub identity-Stands : Stands identity neutral
  unfolding neutral
  identity-Stands = record { on_curve = identity-IsOnCurve; represents = identity-Represents }

  pub add-Stands :
      {p q : EdwardsPoint} {a c : Affine} → Stands p a → Stands q c → Stands (add p q) (sum a c)
  add-Stands {p} {q} {a} {c} h k = record {
    on_curve = add-IsOnCurve h.on_curve k.on_curve;
    represents =
        add-Represents h.represents k.represents
          (sum-IsSum a c (Stands-OnAffine h) (Stands-OnAffine k));
  }

  pub double-Stands : {p : EdwardsPoint} {a : Affine} → Stands p a → Stands (double p) (sum a a)
  double-Stands {p} {a} h = record {
    on_curve = double-IsOnCurve h.on_curve;
    represents =
        double-Represents h.on_curve h.represents
          (sum-IsSum a a (Stands-OnAffine h) (Stands-OnAffine h));
  }

  -- The affine point of an extended one.
  pub affine : EdwardsPoint → Affine
  affine p = record { u = p.x ⊗ inverse_or_zero p.z; v = p.y ⊗ inverse_or_zero p.z }

  pub valid-Stands : {p : EdwardsPoint} → IsValid p → Stands p (affine p)
  unfolding affine
  valid-Stands {p} h = record {
    on_curve = h.on_curve;
    represents = record {
      z_inverse = w;
      unit = unit;
      x_coordinate = widen p.x;
      y_coordinate = widen p.y;
      t_coordinate =
          widen p.t
          ∙ ap (λ t. t ⊗ w ⊗ p.z) (widen p.t)
          ∙ solve (p.t ∷ w ∷ p.z ∷ []) (var 0 :* var 1 :* var 2 :* var 1 :* var 2)
              (var 2 :* var 0 :* var 1 :* var 1 :* var 2) refl
          ∙ ap (λ t. t ⊗ w ⊗ w ⊗ p.z) (sym h.on_curve.extended)
          ∙ solve (p.x ∷ p.y ∷ w ∷ p.z ∷ []) (var 0 :* var 1 :* var 2 :* var 2 :* var 3)
              (var 0 :* var 2 :* (var 1 :* var 2) :* var 3) refl;
    };
  }
    where
      w : FieldElement
      w = inverse_or_zero p.z

      unit : p.z ⊗ w ≡ field_ring.one_elem
      unit = inverse_or_zero-unit p.z h.nonzero

      widen : (x : FieldElement) → x ≡ x ⊗ w ⊗ p.z
      widen x =
          solve (x ∷ []) (var 0) (var 0 :* one_term) refl
          ∙ ap (◌⊗◌ x) (sym unit)
          ∙ solve (x ∷ p.z ∷ w ∷ []) (var 0 :* (var 1 :* var 2)) (var 0 :* var 2 :* var 1) refl

  scaled-Represents :
      {p q : EdwardsPoint} {a : Affine} → IsScaled p q → Represents p a → Represents q a
  scaled-Represents {p} {q} {a} k h = record {
    z_inverse = k.inverse ⊗ h.z_inverse;
    unit =
        ap (λ z. z ⊗ (k.inverse ⊗ h.z_inverse)) k.z_scaled
        ∙ solve (k.factor ∷ k.inverse ∷ p.z ∷ h.z_inverse ∷ []) (var 0 :* var 2 :* (var 1 :* var 3))
            (var 0 :* var 1 :* (var 2 :* var 3)) refl
        ∙ (λ i. k.unit i ⊗ h.unit i)
        ∙ solve [] (one_term :* one_term) one_term refl;
    x_coordinate = scaled q.x p.x a.u k.x_scaled h.x_coordinate;
    y_coordinate = scaled q.y p.y a.v k.y_scaled h.y_coordinate;
    t_coordinate = scaled q.t p.t (a.u ⊗ a.v) k.t_scaled h.t_coordinate;
  }
    where
      scaled : (x x' u : FieldElement) → x ≡ k.factor ⊗ x' → x' ≡ u ⊗ p.z → x ≡ u ⊗ q.z
      scaled x x' u e l =
          e
          ∙ ap (◌⊗◌ k.factor) l
          ∙ solve (k.factor ∷ u ∷ p.z ∷ []) (var 0 :* (var 1 :* var 2)) (var 1 :* (var 0 :* var 2))
              refl
          ∙ ap (◌⊗◌ u) (sym k.z_scaled)

  moved : {p q : EdwardsPoint} {a c : Affine} → p ≡ q → a ≡ c → Stands p a → Stands q c
  moved e l h = rw (← e, ← l) h

  multiple-odd :
      (n : ℕ) (p : EdwardsPoint) (s : ℕ)
      → s % 2 == 1 ≡ true
      → multiple (suc n) p s ≡ add (double (multiple n p (s / 2))) p
  unfolding multiple
  multiple-odd n p s odd =
      ap (λ c. if c then add (double (multiple n p (s / 2))) p else double (multiple n p (s / 2)))
        odd

  multiple-even :
      (n : ℕ) (p : EdwardsPoint) (s : ℕ)
      → s % 2 == 1 ≡ false
      → multiple (suc n) p s ≡ double (multiple n p (s / 2))
  unfolding multiple
  multiple-even n p s even =
      ap (λ c. if c then add (double (multiple n p (s / 2))) p else double (multiple n p (s / 2)))
        even

  multiple-zero : (p : EdwardsPoint) (s : ℕ) → multiple 0 p s ≡ identity
  unfolding multiple
  multiple-zero p s = refl

  -- The binary multiple is the n-fold sum.
  pub multiple-Stands :
      {p : EdwardsPoint} {a : Affine} (n s : ℕ)
      → Stands p a
      → s < 2 ^ n
      → Stands (multiple n p s) (times s a)
  multiple-Stands {p} {a} zero s h k =
      moved (sym (multiple-zero p s))
        (sym (times-zero a) ∙ ap (λ t. times t a) {x = 0} {y = s} (omega (arith, pow-zero 2)))
        identity-Stands
  multiple-Stands {p} {a} (suc n) s h k =
      let twice =
        moved refl (sym (times-add (s / 2) (s / 2) a (Stands-OnAffine h)))
          (double-Stands (multiple-Stands n (s / 2) h (omega (arith, pow-suc 2 n)))) in
      elim (Bool-cases (s % 2 == 1)) [
        | inl odd ↦
            moved (sym (multiple-odd n p s odd))
              (sym (times-suc (s / 2 + s / 2) a)
                ∙ ap (λ t. times t a) {x = suc (s / 2 + s / 2)} {y = s}
                    (omega (arith, (==_iff (s % 2) 1).0 odd)))
              (add-Stands twice h)
        | inr even ↦
            moved (sym (multiple-even n p s even))
              (ap (λ t. times t a) {x = s / 2 + s / 2} {y = s} (ground arith)) twice
      ]

  -- A multiple of a point that stands for an affine point, by a number below 2^301, stands for the
  -- sum of so many copies of the affine point.
  pub scalar_mul-Stands :
      {p : EdwardsPoint} {a : Affine} (s : ℕ)
      → Stands p a
      → s < 2 ^ field_bits
      → Stands (scalar_mul p s) (times s a)
  unfolding scalar_mul
  scalar_mul-Stands {p} s h k = record {
    on_curve = scalar_mul_with-IsOnCurve _ h.on_curve;
    represents =
        scaled-Represents (scalar_mul-multiple p field_bits s (omega arith) k)
          (multiple-Stands field_bits s h k).represents;
  }

  negate-Stands : {p : EdwardsPoint} {a : Affine} → Stands p a → Stands (negate p) (opposite a)
  unfolding negate opposite
  negate-Stands {p} {a} h = record {
    on_curve = unfold negate in negate-IsOnCurve h.on_curve;
    represents = record {
      z_inverse = h.represents.z_inverse;
      unit = h.represents.unit;
      x_coordinate =
          ap field_ring.neg h.represents.x_coordinate
          ∙ solve (a.u ∷ p.z ∷ []) (minus (var 0 :* var 1)) (minus (var 0) :* var 1) refl;
      y_coordinate = h.represents.y_coordinate;
      t_coordinate =
          ap field_ring.neg h.represents.t_coordinate
          ∙ solve (a.u ∷ a.v ∷ p.z ∷ []) (minus (var 0 :* var 1 :* var 2))
              (minus (var 0) :* var 1 :* var 2) refl;
    };
  }

  -- The identity stands for the neutral element of the affine group of the curve; where two points
  -- stand for affine points, their sum stands for the affine sum, and the double, the negative and
  -- the multiple by the cofactor of the first stand for the affine double, opposite and fourfold
  -- sum.
  pub operations-Stands :
      {p q : EdwardsPoint} {a c : Affine}
      → Stands p a
      → Stands q c
      → Stands identity neutral
        × Stands (add p q) (sum a c)
        × Stands (double p) (sum a a)
        × Stands (negate p) (opposite a)
        × Stands (multiply_by_cofactor p) (sum (sum a a) (sum a a))
  unfolding multiply_by_cofactor
  operations-Stands h k = (
    identity-Stands,
    add-Stands h k,
    double-Stands h,
    negate-Stands h,
    double-Stands (double-Stands h),
  )
