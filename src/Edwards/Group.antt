-- ===== src/Edwards/Group.antt =====
-- edwards.rs: the laws of the group as projective equalities of the formulas' results.
use ed301_eddsa.Base.{◌≡◌, ◌↔◌, refl, sym, ap, ap₂, ◌∙◌, ◌≡⟨◌⟩◌, ◌∎, true, ◌&&◌, [], ◌∷◌}
use ed301_eddsa.Base.{and-eq-true}
use ed301_eddsa.Ring.{◌⊕◌, ◌⊗◌, ◌⊖◌}
use ed301_eddsa.Ring.Terms.{Term, var, zero_term, one_term, minus, squared, ◌:+◌, ◌:-◌, ◌:*◌}
use ed301_eddsa.Ring.Solver.{solve}
use ed301_eddsa.Libraries.Bigint.{Bigint}
use ed301_eddsa.Field
use ed301_eddsa.Field.{FieldElement}
use ed301_eddsa.Field.Arith.{field_ring, ct_eq_lem, is_zero_lem}
use ed301_eddsa.Edwards.{
  EdwardsPoint, edwards_a, edwards_d, two, identity, add, double, negate, ct_eq, is_identity,
}
use ed301_eddsa.Edwards.OnCurve.{IsOnCurve, two_lem}

module _ ⦃b : Bigint⦄ where
  -- The two points are the same in projective coordinates.
  abbrev pub SamePoint : EdwardsPoint → EdwardsPoint → Type 0
  SamePoint p q = (Field.mul p.x q.z ≡ Field.mul q.x p.z) × (Field.mul p.y q.z ≡ Field.mul q.y p.z)

  pub ct_eq_iff : (p q : EdwardsPoint) → (ct_eq p q ≡ true) ↔ SamePoint p q
  unfolding ct_eq
  ct_eq_iff p q = (
    λ h.
        let (first, second) = and-eq-true _ _ h in
        ((ct_eq_lem _ _).0 first, (ct_eq_lem _ _).0 second),
    λ h. ap₂ ◌&&◌ ((ct_eq_lem _ _).1 h.0) ((ct_eq_lem _ _).1 h.1),
  )

  pub is_identity_iff :
      (p : EdwardsPoint) → (is_identity p ≡ true) ↔ ((p.x ≡ Field.zero_element) × (p.y ≡ p.z))
  unfolding is_identity
  is_identity_iff p = (
    λ h.
        let (first, second) = and-eq-true _ _ h in
        ((is_zero_lem _).0 first, (ct_eq_lem _ _).0 second),
    λ h. ap₂ ◌&&◌ ((is_zero_lem _).1 h.0) ((ct_eq_lem _ _).1 h.1),
  )

  -- Addition commutes, coordinate by coordinate.
  pub add_comm : (p q : EdwardsPoint) → add p q ≡ add q p
  unfolding add
  add_comm p q = λ i. record {
    x = field_ring.mul (cross i) (difference i);
    y = field_ring.mul (sum i) (twisted i);
    z = field_ring.mul (difference i) (sum i);
    t = field_ring.mul (cross i) (twisted i);
  }
    where
      product : (x y : FieldElement) → Field.mul x y ≡ Field.mul y x
      product x y = field_ring.mul_comm x y

      dt : edwards_d ⊗ p.t ⊗ q.t ≡ edwards_d ⊗ q.t ⊗ p.t
      dt =
          solve (edwards_d ∷ p.t ∷ q.t ∷ []) (var 0 :* var 1 :* var 2) (var 0 :* var 2 :* var 1)
            refl

      cross :
          (p.x ⊕ p.y) ⊗ (q.x ⊕ q.y) ⊖ p.x ⊗ q.x ⊖ p.y ⊗ q.y
          ≡ (q.x ⊕ q.y) ⊗ (p.x ⊕ p.y) ⊖ q.x ⊗ p.x ⊖ q.y ⊗ p.y
      cross =
          solve (p.x ∷ p.y ∷ q.x ∷ q.y ∷ [])
            ((var 0 :+ var 1) :* (var 2 :+ var 3) :- var 0 :* var 2 :- var 1 :* var 3)
            ((var 2 :+ var 3) :* (var 0 :+ var 1) :- var 2 :* var 0 :- var 3 :* var 1) refl

      difference : p.z ⊗ q.z ⊖ edwards_d ⊗ p.t ⊗ q.t ≡ q.z ⊗ p.z ⊖ edwards_d ⊗ q.t ⊗ p.t
      difference = ap₂ ◌⊖◌ (product p.z q.z) dt

      sum : p.z ⊗ q.z ⊕ edwards_d ⊗ p.t ⊗ q.t ≡ q.z ⊗ p.z ⊕ edwards_d ⊗ q.t ⊗ p.t
      sum = ap₂ ◌⊕◌ (product p.z q.z) dt

      twisted : p.y ⊗ q.y ⊖ edwards_a ⊗ (p.x ⊗ q.x) ≡ q.y ⊗ p.y ⊖ edwards_a ⊗ (q.x ⊗ p.x)
      twisted = ap₂ (λ s t. s ⊖ edwards_a ⊗ t) (product p.y q.y) (product p.x q.x)

  -- The identity is neutral for addition, in projective coordinates and for every point.
  pub add-identity : (p : EdwardsPoint) → SamePoint (add p identity) p
  unfolding add identity
  add-identity p = (
    solve (edwards_a ∷ edwards_d ∷ p.x ∷ p.y ∷ p.z ∷ p.t ∷ []) (cross :* difference :* var 4)
        (var 2 :* (difference :* sum)) refl,
    solve (edwards_a ∷ edwards_d ∷ p.x ∷ p.y ∷ p.z ∷ p.t ∷ []) (sum :* twisted :* var 4)
        (var 3 :* (difference :* sum)) refl,
  )
    where
      cross : Term
      cross = (var 2 :+ var 3) :* (zero_term :+ one_term) :- var 2 :* zero_term :- var 3 :* one_term

      difference : Term
      difference = var 4 :* one_term :- var 1 :* var 5 :* zero_term

      sum : Term
      sum = var 4 :* one_term :+ var 1 :* var 5 :* zero_term

      twisted : Term
      twisted = var 3 :* one_term :- var 0 :* (var 2 :* zero_term)

  -- A point of the curve and its negative add up to the identity.
  pub add-negate : {p : EdwardsPoint} → IsOnCurve p → is_identity (add p (negate p)) ≡ true
  unfolding add negate
  add-negate {p} h = (is_identity_iff _).1 (
    solve (edwards_d ∷ p.x ∷ p.y ∷ p.z ∷ p.t ∷ [])
        (((var 1 :+ var 2) :* (minus (var 1) :+ var 2) :- var 1 :* minus (var 1) :- var 2 :* var 2)
          :* (var 3 :* var 3 :- var 0 :* var 4 :* minus (var 4)))
        zero_term refl,
    (p.z ⊗ p.z ⊕ edwards_d ⊗ p.t ⊗ field_ring.neg p.t)
          ⊗ (p.y ⊗ p.y ⊖ edwards_a ⊗ (p.x ⊗ field_ring.neg p.x))
        ≡⟨ solve (edwards_a ∷ p.x ∷ p.y ∷ (p.z ⊗ p.z ⊕ edwards_d ⊗ p.t ⊗ field_ring.neg p.t) ∷ [])
            (var 3 :* (var 2 :* var 2 :- var 0 :* (var 1 :* minus (var 1))))
            (var 3 :* (var 0 :* squared (var 1) :+ squared (var 2))) refl ⟩
          (p.z ⊗ p.z ⊕ edwards_d ⊗ p.t ⊗ field_ring.neg p.t)
          ⊗ (edwards_a ⊗ Field.square p.x ⊕ Field.square p.y)
        ≡⟨ ap (◌⊗◌ (p.z ⊗ p.z ⊕ edwards_d ⊗ p.t ⊗ field_ring.neg p.t)) h.curve ⟩
          (p.z ⊗ p.z ⊕ edwards_d ⊗ p.t ⊗ field_ring.neg p.t)
          ⊗ (Field.square p.z ⊕ edwards_d ⊗ Field.square p.t)
        ≡⟨ solve (edwards_d ∷ p.z ∷ p.t ∷ [])
            ((var 1 :* var 1 :+ var 0 :* var 2 :* minus (var 2))
              :* (squared (var 1) :+ var 0 :* squared (var 2)))
            ((var 1 :* var 1 :- var 0 :* var 2 :* minus (var 2))
              :* (var 1 :* var 1 :+ var 0 :* var 2 :* minus (var 2)))
            refl ⟩
          (p.z ⊗ p.z ⊖ edwards_d ⊗ p.t ⊗ field_ring.neg p.t)
          ⊗ (p.z ⊗ p.z ⊕ edwards_d ⊗ p.t ⊗ field_ring.neg p.t) ∎,
  )

  -- All four coordinates of a double are those of the sum of the point with itself, negated.
  pub double-neg_add :
      (p : EdwardsPoint)
      → IsOnCurve p
      → ((double p).x ≡ field_ring.neg (add p p).x)
        × ((double p).y ≡ field_ring.neg (add p p).y)
        × ((double p).z ≡ field_ring.neg (add p p).z)
        × ((double p).t ≡ field_ring.neg (add p p).t)
  unfolding add double
  double-neg_add p h = (
    ap₂ ◌⊗◌ cross difference
        ∙ solve (c ∷ f ∷ []) (var 0 :* minus (var 1)) (minus (var 0 :* var 1)) refl,
    ap₂ ◌⊗◌ sum twisted ∙ solve (g ∷ t ∷ []) (var 0 :* minus (var 1)) (minus (var 0 :* var 1)) refl,
    ap₂ ◌⊗◌ difference sum
        ∙ solve (f ∷ g ∷ []) (minus (var 0) :* var 1) (minus (var 0 :* var 1)) refl,
    ap₂ ◌⊗◌ cross twisted
        ∙ solve (c ∷ t ∷ []) (var 0 :* minus (var 1)) (minus (var 0 :* var 1)) refl,
  )
    where
      c : FieldElement
      c = (p.x ⊕ p.y) ⊗ (p.x ⊕ p.y) ⊖ p.x ⊗ p.x ⊖ p.y ⊗ p.y

      f : FieldElement
      f = p.z ⊗ p.z ⊖ edwards_d ⊗ p.t ⊗ p.t

      g : FieldElement
      g = p.z ⊗ p.z ⊕ edwards_d ⊗ p.t ⊗ p.t

      t : FieldElement
      t = p.y ⊗ p.y ⊖ edwards_a ⊗ (p.x ⊗ p.x)

      cross : Field.square (p.x ⊕ p.y) ⊖ Field.square p.x ⊖ Field.square p.y ≡ c
      cross =
          solve (p.x ∷ p.y ∷ []) (squared (var 0 :+ var 1) :- squared (var 0) :- squared (var 1))
            ((var 0 :+ var 1) :* (var 0 :+ var 1) :- var 0 :* var 0 :- var 1 :* var 1) refl

      sum : edwards_a ⊗ Field.square p.x ⊕ Field.square p.y ≡ g
      sum =
          h.curve
          ∙ solve (edwards_d ∷ p.z ∷ p.t ∷ []) (squared (var 1) :+ var 0 :* squared (var 2))
              (var 1 :* var 1 :+ var 0 :* var 2 :* var 2) refl

      difference :
          edwards_a ⊗ Field.square p.x ⊕ Field.square p.y ⊖ two ⊗ Field.square p.z
          ≡ field_ring.neg f
      difference =
          ap₂ (λ s u. s ⊖ u ⊗ Field.square p.z) sum two_lem
          ∙ solve (edwards_d ∷ p.z ∷ p.t ∷ [])
              ((var 1 :* var 1 :+ var 0 :* var 2 :* var 2)
                :- (one_term :+ one_term) :* squared (var 1))
              (minus (var 1 :* var 1 :- var 0 :* var 2 :* var 2)) refl

      twisted : edwards_a ⊗ Field.square p.x ⊖ Field.square p.y ≡ field_ring.neg t
      twisted =
          solve (edwards_a ∷ p.x ∷ p.y ∷ []) (var 0 :* squared (var 1) :- squared (var 2))
            (minus (var 2 :* var 2 :- var 0 :* (var 1 :* var 1))) refl

  -- On a point of the curve the dedicated doubling formula is addition of the point to itself, in
  -- projective coordinates.
  pub double-add : {p : EdwardsPoint} → IsOnCurve p → SamePoint (double p) (add p p)
  double-add {p} h =
      let (ex, ey, ez, et) = double-neg_add p h in
      (
        swap_signs (double p).x (add p p).x (double p).z (add p p).z ex ez,
        swap_signs (double p).y (add p p).y (double p).z (add p p).z ey ez,
      )
    where
      swap_signs :
          (x x' z z' : FieldElement)
          → x ≡ field_ring.neg x'
          → z ≡ field_ring.neg z'
          → x ⊗ z' ≡ x' ⊗ z
      swap_signs x x' z z' ex ez =
          ap (λ s. s ⊗ z') ex
          ∙ solve (x' ∷ z' ∷ []) (minus (var 0) :* var 1) (var 0 :* minus (var 1)) refl
          ∙ ap (◌⊗◌ x') (sym ez)
