-- ===== src/Edwards/OnCurve/Sums.antt =====
-- The relations between the parts of the addition and doubling formulas, for points of the curve.
use ed301_eddsa.Base.{◌≡◌, refl, sym, ap, ap₂, ◌≡⟨◌⟩◌, ◌∎, [], ◌∷◌}
use ed301_eddsa.Ring.{CommRing, ◌⊕◌, ◌⊗◌, ◌⊖◌}
use ed301_eddsa.Ring.Terms.{Term, var, one_term, squared, ◌:+◌, ◌:-◌, ◌:*◌}
use ed301_eddsa.Ring.Solver.{solve}
use ed301_eddsa.Edwards.OnCurve.Identities.{four_of, Curve, sum-Curve}

module _ {A : Type 0} ⦃r : CommRing A⦄ where
  -- `cross`, in the code's words.
  abbrev pub cross_of : A → A → A → A → A
  cross_of x1 y1 x2 y2 = (x1 ⊕ y1) ⊗ (x2 ⊕ y2) ⊖ x1 ⊗ x2 ⊖ y1 ⊗ y2

  module _ (a d x1 y1 z1 t1 x2 y2 z2 t2 : A) (curve1 : Curve a d x1 y1 z1 t1)
      (curve2 : Curve a d x2 y2 z2 t2) (extended1 : x1 ⊗ y1 ≡ z1 ⊗ t1)
      (extended2 : x2 ⊗ y2 ≡ z2 ⊗ t2) where
    abbrev cross : A
    cross = cross_of x1 y1 x2 y2

    abbrev twisted : A
    twisted = y1 ⊗ y2 ⊖ a ⊗ (x1 ⊗ x2)

    abbrev dt : A
    dt = d ⊗ t1 ⊗ t2

    abbrev zz : A
    zz = z1 ⊗ z2

    abbrev cross_minus : A
    cross_minus = x1 ⊗ y2 ⊖ x2 ⊗ y1

    abbrev turned : A
    turned = t1 ⊗ z2 ⊖ t2 ⊗ z1

    square-cross-a :
        a ⊗ r.square cross ≡ r.square (zz ⊕ dt) ⊕ d ⊗ r.square turned ⊖ r.square twisted
    square-cross-a =
        a ⊗ r.square cross
        ≡⟨ solve (a ∷ x1 ∷ y1 ∷ x2 ∷ y2 ∷ [])
            (var 0
              :* squared ((var 1 :+ var 2) :* (var 3 :+ var 4) :- var 1 :* var 3 :- var 2 :* var 4))
            ((var 0 :* squared (var 1) :+ squared (var 2))
                :* (var 0 :* squared (var 3) :+ squared (var 4))
              :- squared (var 2 :* var 4 :- var 0 :* (var 1 :* var 3)))
            refl ⟩
          (a ⊗ r.square x1 ⊕ r.square y1) ⊗ (a ⊗ r.square x2 ⊕ r.square y2) ⊖ r.square twisted
        ≡⟨ ap₂ (λ p q. p ⊗ q ⊖ r.square twisted) curve1 curve2 ⟩
          (r.square z1 ⊕ d ⊗ r.square t1) ⊗ (r.square z2 ⊕ d ⊗ r.square t2) ⊖ r.square twisted
        ≡⟨ solve (d ∷ z1 ∷ t1 ∷ z2 ∷ t2 ∷ r.square twisted ∷ [])
            ((squared (var 1) :+ var 0 :* squared (var 2))
                :* (squared (var 3) :+ var 0 :* squared (var 4))
              :- var 5)
            (squared (var 1 :* var 3 :+ var 0 :* var 2 :* var 4)
              :+ var 0 :* squared (var 2 :* var 3 :- var 4 :* var 1)
              :- var 5)
            refl ⟩
          r.square (zz ⊕ dt) ⊕ d ⊗ r.square turned ⊖ r.square twisted ∎

    square-cross-d : d ⊗ r.square cross ≡ d ⊗ r.square cross_minus ⊕ four_of (dt ⊗ zz)
    square-cross-d =
        d ⊗ r.square cross
        ≡⟨ solve (d ∷ x1 ∷ y1 ∷ x2 ∷ y2 ∷ [])
            (var 0
              :* squared ((var 1 :+ var 2) :* (var 3 :+ var 4) :- var 1 :* var 3 :- var 2 :* var 4))
            (var 0 :* squared (var 1 :* var 4 :- var 3 :* var 2)
              :+ four (var 0 :* (var 1 :* var 2) :* (var 3 :* var 4)))
            refl ⟩
          d ⊗ r.square cross_minus ⊕ four_of (d ⊗ (x1 ⊗ y1) ⊗ (x2 ⊗ y2))
        ≡⟨ ap₂ (λ p q. d ⊗ r.square cross_minus ⊕ four_of (d ⊗ p ⊗ q)) extended1 extended2 ⟩
          d ⊗ r.square cross_minus ⊕ four_of (d ⊗ (z1 ⊗ t1) ⊗ (z2 ⊗ t2))
        ≡⟨ solve (d ∷ z1 ∷ t1 ∷ z2 ∷ t2 ∷ r.square cross_minus ∷ [])
            (var 0 :* var 5 :+ four (var 0 :* (var 1 :* var 2) :* (var 3 :* var 4)))
            (var 0 :* var 5 :+ four (var 0 :* var 2 :* var 4 :* (var 1 :* var 3))) refl ⟩
          d ⊗ r.square cross_minus ⊕ four_of (dt ⊗ zz) ∎
      where
        four : Term → Term
        four s = (s :+ s) :+ (s :+ s)

    cross_minus-twisted : cross_minus ⊗ twisted ≡ turned ⊗ (zz ⊖ dt)
    cross_minus-twisted =
        cross_minus ⊗ twisted
        ≡⟨ solve (a ∷ x1 ∷ y1 ∷ x2 ∷ y2 ∷ [])
            ((var 1 :* var 4 :- var 3 :* var 2) :* (var 2 :* var 4 :- var 0 :* (var 1 :* var 3)))
            (var 1 :* var 2 :* (var 0 :* squared (var 3) :+ squared (var 4))
              :- var 3 :* var 4 :* (var 0 :* squared (var 1) :+ squared (var 2)))
            refl ⟩
          x1 ⊗ y1 ⊗ (a ⊗ r.square x2 ⊕ r.square y2) ⊖ x2 ⊗ y2 ⊗ (a ⊗ r.square x1 ⊕ r.square y1)
        ≡⟨ ap₂ (λ p q. x1 ⊗ y1 ⊗ p ⊖ x2 ⊗ y2 ⊗ q) curve2 curve1 ⟩
          x1 ⊗ y1 ⊗ (r.square z2 ⊕ d ⊗ r.square t2) ⊖ x2 ⊗ y2 ⊗ (r.square z1 ⊕ d ⊗ r.square t1)
        ≡⟨ ap₂ (λ p q. p ⊗ (r.square z2 ⊕ d ⊗ r.square t2) ⊖ q ⊗ (r.square z1 ⊕ d ⊗ r.square t1))
            extended1 extended2 ⟩
          z1 ⊗ t1 ⊗ (r.square z2 ⊕ d ⊗ r.square t2) ⊖ z2 ⊗ t2 ⊗ (r.square z1 ⊕ d ⊗ r.square t1)
        ≡⟨ solve (d ∷ z1 ∷ t1 ∷ z2 ∷ t2 ∷ [])
            (var 1 :* var 2 :* (squared (var 3) :+ var 0 :* squared (var 4))
              :- var 3 :* var 4 :* (squared (var 1) :+ var 0 :* squared (var 2)))
            ((var 2 :* var 3 :- var 4 :* var 1) :* (var 1 :* var 3 :- var 0 :* var 2 :* var 4))
            refl ⟩
          turned ⊗ (zz ⊖ dt) ∎

    -- The sum of two points of the curve satisfies the curve equation.
    pub add-Curve :
        Curve a d
          (cross ⊗ (zz ⊖ dt))
          ((zz ⊕ dt) ⊗ twisted)
          ((zz ⊖ dt) ⊗ (zz ⊕ dt))
          (cross ⊗ twisted)
    add-Curve =
        sum-Curve a d cross twisted dt zz cross_minus turned square-cross-a square-cross-d
          cross_minus-twisted

  -- The product of four parts, grouped the other way.
  pub extended_product : (e f g h : A) → e ⊗ f ⊗ (g ⊗ h) ≡ f ⊗ g ⊗ (e ⊗ h)
  extended_product e f g h =
      solve (e ∷ f ∷ g ∷ h ∷ []) (var 0 :* var 1 :* (var 2 :* var 3))
        (var 1 :* var 2 :* (var 0 :* var 3)) refl

  abbrev pub doubled_cross : A → A → A
  doubled_cross x y = r.square (x ⊕ y) ⊖ r.square x ⊖ r.square y

  module _ (a d x y z t : A) (curve : Curve a d x y z t) (extended : x ⊗ y ≡ z ⊗ t) where
    abbrev sum : A
    sum = a ⊗ r.square x ⊕ r.square y

    abbrev two_zz : A
    two_zz = (r.one_elem ⊕ r.one_elem) ⊗ r.square z

    abbrev twisted_difference : A
    twisted_difference = a ⊗ r.square x ⊖ r.square y

    -- F^2 + d E^2 = S^2, where S is `sum` and F is `difference`.
    square-difference : r.square (sum ⊖ two_zz) ⊕ d ⊗ r.square (doubled_cross x y) ≡ r.square sum
    square-difference =
        r.square (sum ⊖ two_zz) ⊕ d ⊗ r.square (doubled_cross x y)
        ≡⟨ solve (d ∷ x ∷ y ∷ (sum ⊖ two_zz) ∷ [])
            (squared (var 3)
              :+ var 0 :* squared (squared (var 1 :+ var 2) :- squared (var 1) :- squared (var 2)))
            (squared (var 3) :+ four (var 0 :* squared (var 1 :* var 2))) refl ⟩
          r.square (sum ⊖ two_zz) ⊕ four_of (d ⊗ r.square (x ⊗ y))
        ≡⟨ ap₂ (λ p q. r.square (p ⊖ two_zz) ⊕ four_of (d ⊗ r.square q)) curve extended ⟩
          r.square (r.square z ⊕ d ⊗ r.square t ⊖ two_zz) ⊕ four_of (d ⊗ r.square (z ⊗ t))
        ≡⟨ solve (d ∷ z ∷ t ∷ [])
            (squared (
                squared (var 1)
                :+ var 0 :* squared (var 2)
                :- (one_term :+ one_term) :* squared (var 1))
              :+ four (var 0 :* squared (var 1 :* var 2)))
            (squared (squared (var 1) :+ var 0 :* squared (var 2))) refl ⟩
          r.square (r.square z ⊕ d ⊗ r.square t)
        ≡⟨ ap r.square (sym curve) ⟩ r.square sum ∎
      where
        four : Term → Term
        four s = (s :+ s) :+ (s :+ s)

    -- The double of a point of the curve satisfies the curve equation.
    pub double-Curve :
        Curve a d
          (doubled_cross x y ⊗ (sum ⊖ two_zz))
          (sum ⊗ twisted_difference)
          ((sum ⊖ two_zz) ⊗ sum)
          (doubled_cross x y ⊗ twisted_difference)
    double-Curve =
        a ⊗ r.square (e ⊗ f) ⊕ r.square (sum ⊗ h)
        ≡⟨ solve (a ∷ x ∷ y ∷ f ∷ [])
            (var 0 :* squared (double_term :* var 3) :+ squared (sum_term :* h_term))
            (squared (var 3) :* (squared sum_term :- squared h_term)
              :+ squared (sum_term :* h_term))
            refl ⟩
          r.square f ⊗ (r.square sum ⊖ r.square h) ⊕ r.square (sum ⊗ h)
        ≡⟨ solve (sum ∷ f ∷ h ∷ [])
            (squared (var 1) :* (squared (var 0) :- squared (var 2)) :+ squared (var 0 :* var 2))
            (squared (var 1 :* var 0) :+ (squared (var 0) :- squared (var 1)) :* squared (var 2))
            refl ⟩
          r.square (f ⊗ sum) ⊕ (r.square sum ⊖ r.square f) ⊗ r.square h
        ≡⟨ ap (λ q. r.square (f ⊗ sum) ⊕ (q ⊖ r.square f) ⊗ r.square h) (sym square-difference) ⟩
          r.square (f ⊗ sum) ⊕ (r.square f ⊕ d ⊗ r.square e ⊖ r.square f) ⊗ r.square h
        ≡⟨ solve (d ∷ e ∷ f ∷ h ∷ r.square (f ⊗ sum) ∷ [])
            (var 4
              :+ (squared (var 2) :+ var 0 :* squared (var 1) :- squared (var 2))
                :* squared (var 3))
            (var 4 :+ var 0 :* squared (var 1 :* var 3)) refl ⟩
          r.square (f ⊗ sum) ⊕ d ⊗ r.square (e ⊗ h) ∎
      where
        e : A
        e = doubled_cross x y

        f : A
        f = sum ⊖ two_zz

        h : A
        h = twisted_difference

        double_term : Term
        double_term = squared (var 1 :+ var 2) :- squared (var 1) :- squared (var 2)

        sum_term : Term
        sum_term = var 0 :* squared (var 1) :+ squared (var 2)

        h_term : Term
        h_term = var 0 :* squared (var 1) :- squared (var 2)
