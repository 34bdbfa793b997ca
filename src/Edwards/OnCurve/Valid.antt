-- ===== src/Edwards/OnCurve/Valid.antt =====
-- edwards.rs: `is_valid` against the invariant of the points.
use ed301_eddsa.Base.{◌≡◌, refl, sym, ap, ap₂, ◌∙◌, ◌≡⟨◌⟩◌, ◌∎, true, false, not, ◌&&◌, [], ◌∷◌}
use ed301_eddsa.Base.{and-eq-true, not-eq-true, arith}
use ed301_eddsa.Ring.{CommRing, ◌⊕◌, ◌⊗◌}
use ed301_eddsa.Ring.Terms.{var, one_term, squared, ◌:+◌, ◌:*◌}
use ed301_eddsa.Ring.Solver.{solve}
use ed301_eddsa.Libraries.Bigint.{Bigint}
use ed301_eddsa.Field
use ed301_eddsa.Field.{FieldElement}
use ed301_eddsa.Field.Arith.{field_ring, ct_eq_lem}
use ed301_eddsa.Edwards.{EdwardsPoint, edwards_a, edwards_d, is_valid}
use ed301_eddsa.Edwards.OnCurve.{IsOnCurve}
use ed301_eddsa.Edwards.OnCurve.Identities.{Curve}

module _ {A : Type 0} ⦃r : CommRing A⦄ where
  -- The curve equation times Z^2, in the form of the code.
  abbrev pub Cleared : A → A → A → A → A → Type 0
  Cleared a d x y z =
      a ⊗ r.square x ⊗ r.square z ⊕ r.square y ⊗ r.square z
      ≡ r.square (r.square z) ⊕ d ⊗ r.square x ⊗ r.square y

  pub Cleared-of_Curve : (a d x y z t : A) → x ⊗ y ≡ z ⊗ t → Curve a d x y z t → Cleared a d x y z
  Cleared-of_Curve a d x y z t extended curve =
      a ⊗ r.square x ⊗ r.square z ⊕ r.square y ⊗ r.square z
      ≡⟨ solve (a ∷ x ∷ y ∷ z ∷ [])
          (var 0 :* squared (var 1) :* squared (var 3) :+ squared (var 2) :* squared (var 3))
          (squared (var 3) :* (var 0 :* squared (var 1) :+ squared (var 2))) refl ⟩
        r.square z ⊗ (a ⊗ r.square x ⊕ r.square y)
      ≡⟨ ap (◌⊗◌ (r.square z)) curve ⟩ r.square z ⊗ (r.square z ⊕ d ⊗ r.square t)
      ≡⟨ solve (d ∷ z ∷ t ∷ []) (squared (var 1) :* (squared (var 1) :+ var 0 :* squared (var 2)))
          (squared (squared (var 1)) :+ var 0 :* squared (var 1 :* var 2)) refl ⟩
        r.square (r.square z) ⊕ d ⊗ r.square (z ⊗ t)
      ≡⟨ ap (λ q. r.square (r.square z) ⊕ d ⊗ r.square q) (sym extended) ⟩
        r.square (r.square z) ⊕ d ⊗ r.square (x ⊗ y)
      ≡⟨ solve (d ∷ x ∷ y ∷ z ∷ []) (squared (squared (var 3)) :+ var 0 :* squared (var 1 :* var 2))
          (squared (squared (var 3)) :+ var 0 :* squared (var 1) :* squared (var 2)) refl ⟩
        r.square (r.square z) ⊕ d ⊗ r.square x ⊗ r.square y ∎

  pub Curve-of_Cleared :
      (a d x y z t w : A)
      → z ⊗ w ≡ r.one_elem
      → x ⊗ y ≡ z ⊗ t
      → Cleared a d x y z
      → Curve a d x y z t
  Curve-of_Cleared a d x y z t w unit extended cleared =
      a ⊗ r.square x ⊕ r.square y
      ≡⟨ solve (a ∷ x ∷ y ∷ []) (var 0 :* squared (var 1) :+ squared (var 2))
          (squared one_term :* (var 0 :* squared (var 1) :+ squared (var 2))) refl ⟩
        r.square r.one_elem ⊗ (a ⊗ r.square x ⊕ r.square y)
      ≡⟨ ap (λ q. r.square q ⊗ (a ⊗ r.square x ⊕ r.square y)) (sym unit) ⟩
        r.square (z ⊗ w) ⊗ (a ⊗ r.square x ⊕ r.square y)
      ≡⟨ solve (a ∷ x ∷ y ∷ z ∷ w ∷ [])
          (squared (var 3 :* var 4) :* (var 0 :* squared (var 1) :+ squared (var 2)))
          (squared (var 4)
            :* (var 0 :* squared (var 1) :* squared (var 3) :+ squared (var 2) :* squared (var 3)))
          refl ⟩
        r.square w ⊗ (a ⊗ r.square x ⊗ r.square z ⊕ r.square y ⊗ r.square z)
      ≡⟨ ap (◌⊗◌ (r.square w)) cleared ⟩
        r.square w ⊗ (r.square (r.square z) ⊕ d ⊗ r.square x ⊗ r.square y)
      ≡⟨ solve (d ∷ x ∷ y ∷ z ∷ w ∷ [])
          (squared (var 4)
            :* (squared (squared (var 3)) :+ var 0 :* squared (var 1) :* squared (var 2)))
          (squared (var 4) :* (squared (squared (var 3)) :+ var 0 :* squared (var 1 :* var 2)))
          refl ⟩
        r.square w ⊗ (r.square (r.square z) ⊕ d ⊗ r.square (x ⊗ y))
      ≡⟨ ap (λ q. r.square w ⊗ (r.square (r.square z) ⊕ d ⊗ r.square q)) extended ⟩
        r.square w ⊗ (r.square (r.square z) ⊕ d ⊗ r.square (z ⊗ t))
      ≡⟨ solve (d ∷ z ∷ t ∷ w ∷ [])
          (squared (var 3) :* (squared (squared (var 1)) :+ var 0 :* squared (var 1 :* var 2)))
          (squared (var 1 :* var 3) :* (squared (var 1) :+ var 0 :* squared (var 2))) refl ⟩
        r.square (z ⊗ w) ⊗ (r.square z ⊕ d ⊗ r.square t)
      ≡⟨ ap (λ q. r.square q ⊗ (r.square z ⊕ d ⊗ r.square t)) unit ⟩
        r.square r.one_elem ⊗ (r.square z ⊕ d ⊗ r.square t)
      ≡⟨ solve (d ∷ z ∷ t ∷ []) (squared one_term :* (squared (var 1) :+ var 0 :* squared (var 2)))
          (squared (var 1) :+ var 0 :* squared (var 2)) refl ⟩
        r.square z ⊕ d ⊗ r.square t ∎

module _ ⦃b : Bigint⦄ where
  pub is_valid-parts :
      (p : EdwardsPoint)
      → is_valid p ≡ true
      → (Field.is_zero p.z ≡ false)
        × (Field.mul p.x p.y ≡ Field.mul p.z p.t)
        × Cleared edwards_a edwards_d p.x p.y p.z
  unfolding is_valid
  is_valid-parts p h =
      let (first, third) = and-eq-true _ _ h in
      let (nonzero, second) = and-eq-true _ _ first in
      (not-eq-true _ nonzero, (ct_eq_lem _ _).0 second, (ct_eq_lem _ _).0 third)

  -- What passes the check satisfies the invariant, if Z has an inverse, as it has in a field.
  pub is_valid→IsOnCurve :
      (p : EdwardsPoint) (w : FieldElement)
      → Field.mul p.z w ≡ Field.one_element
      → is_valid p ≡ true
      → IsOnCurve p
  is_valid→IsOnCurve p w unit h =
      let (nonzero, extended, cleared) = is_valid-parts p h in
      record {
        extended = extended;
        curve = Curve-of_Cleared edwards_a edwards_d p.x p.y p.z p.t w unit extended cleared;
      }

  -- On a point of the curve the validity test is the test that Z is not zero.
  pub IsOnCurve→is_valid : {p : EdwardsPoint} → IsOnCurve p → is_valid p ≡ not (Field.is_zero p.z)
  unfolding is_valid
  IsOnCurve→is_valid {p} h =
      ap₂ (λ s t. not (Field.is_zero p.z) && s && t) ((ct_eq_lem _ _).1 h.extended)
        ((ct_eq_lem _ _).1
          (Cleared-of_Curve edwards_a edwards_d p.x p.y p.z p.t h.extended h.curve))
      ∙ ground arith
