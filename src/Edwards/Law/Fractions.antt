-- ===== src/Edwards/Law/Fractions.antt =====
-- edwards.rs: sums of three points of the curve as fractions over common denominators. The partial
-- sum has the coordinates su and sv with su g = e and sv f = h, and the other point is (x, y).
use ed301_eddsa.Base.{◌≡◌, refl, sym, ◌∙◌, [], ◌∷◌}
use ed301_eddsa.Ring.{CommRing, ◌⊕◌, ◌⊗◌, ◌⊖◌}
use ed301_eddsa.Ring.Terms.{var, one_term, ◌:+◌, ◌:-◌, ◌:*◌}
use ed301_eddsa.Ring.Solver.{solve}

module _ {A : Type 0} ⦃r : CommRing A⦄ (a d su sv e f g h x y : A) (eu : su ⊗ g ≡ e)
    (ev : sv ⊗ f ≡ h) where
  pub left_plus_lem : f ⊗ g ⊕ d ⊗ (e ⊗ h) ⊗ (x ⊗ y) ≡ f ⊗ g ⊗ (r.one_elem ⊕ d ⊗ (su ⊗ sv) ⊗ (x ⊗ y))
  left_plus_lem =
      (λ i. f ⊗ g ⊕ d ⊗ (sym eu i ⊗ sym ev i) ⊗ (x ⊗ y))
      ∙ solve (d ∷ su ∷ sv ∷ f ∷ g ∷ x ∷ y ∷ [])
          (var 3 :* var 4 :+ var 0 :* (var 1 :* var 4 :* (var 2 :* var 3)) :* (var 5 :* var 6))
          (var 3 :* var 4 :* (one_term :+ var 0 :* (var 1 :* var 2) :* (var 5 :* var 6))) refl

  pub left_minus_lem :
      f ⊗ g ⊖ d ⊗ (e ⊗ h) ⊗ (x ⊗ y) ≡ f ⊗ g ⊗ (r.one_elem ⊖ d ⊗ (su ⊗ sv) ⊗ (x ⊗ y))
  left_minus_lem =
      (λ i. f ⊗ g ⊖ d ⊗ (sym eu i ⊗ sym ev i) ⊗ (x ⊗ y))
      ∙ solve (d ∷ su ∷ sv ∷ f ∷ g ∷ x ∷ y ∷ [])
          (var 3 :* var 4 :- var 0 :* (var 1 :* var 4 :* (var 2 :* var 3)) :* (var 5 :* var 6))
          (var 3 :* var 4 :* (one_term :- var 0 :* (var 1 :* var 2) :* (var 5 :* var 6))) refl

  pub right_plus_lem :
      f ⊗ g ⊕ d ⊗ (x ⊗ y) ⊗ (e ⊗ h) ≡ f ⊗ g ⊗ (r.one_elem ⊕ d ⊗ (x ⊗ y) ⊗ (su ⊗ sv))
  right_plus_lem =
      (λ i. f ⊗ g ⊕ d ⊗ (x ⊗ y) ⊗ (sym eu i ⊗ sym ev i))
      ∙ solve (d ∷ su ∷ sv ∷ f ∷ g ∷ x ∷ y ∷ [])
          (var 3 :* var 4 :+ var 0 :* (var 5 :* var 6) :* (var 1 :* var 4 :* (var 2 :* var 3)))
          (var 3 :* var 4 :* (one_term :+ var 0 :* (var 5 :* var 6) :* (var 1 :* var 2))) refl

  pub right_minus_lem :
      f ⊗ g ⊖ d ⊗ (x ⊗ y) ⊗ (e ⊗ h) ≡ f ⊗ g ⊗ (r.one_elem ⊖ d ⊗ (x ⊗ y) ⊗ (su ⊗ sv))
  right_minus_lem =
      (λ i. f ⊗ g ⊖ d ⊗ (x ⊗ y) ⊗ (sym eu i ⊗ sym ev i))
      ∙ solve (d ∷ su ∷ sv ∷ f ∷ g ∷ x ∷ y ∷ [])
          (var 3 :* var 4 :- var 0 :* (var 5 :* var 6) :* (var 1 :* var 4 :* (var 2 :* var 3)))
          (var 3 :* var 4 :* (one_term :- var 0 :* (var 5 :* var 6) :* (var 1 :* var 2))) refl

  -- The numerators, with the denominators of the partial sum taken out.
  pub left_u_lem : f ⊗ g ⊗ (su ⊗ y ⊕ sv ⊗ x) ≡ e ⊗ f ⊗ y ⊕ g ⊗ h ⊗ x
  left_u_lem =
      solve (su ∷ sv ∷ f ∷ g ∷ x ∷ y ∷ []) (var 2 :* var 3 :* (var 0 :* var 5 :+ var 1 :* var 4))
        (var 0 :* var 3 :* var 2 :* var 5 :+ var 3 :* (var 1 :* var 2) :* var 4) refl
      ∙ (λ i. eu i ⊗ f ⊗ y ⊕ g ⊗ ev i ⊗ x)

  pub left_v_lem : f ⊗ g ⊗ (sv ⊗ y ⊖ a ⊗ (su ⊗ x)) ≡ g ⊗ h ⊗ y ⊖ a ⊗ (e ⊗ f ⊗ x)
  left_v_lem =
      solve (a ∷ su ∷ sv ∷ f ∷ g ∷ x ∷ y ∷ [])
        (var 3 :* var 4 :* (var 2 :* var 6 :- var 0 :* (var 1 :* var 5)))
        (var 4 :* (var 2 :* var 3) :* var 6 :- var 0 :* (var 1 :* var 4 :* var 3 :* var 5)) refl
      ∙ (λ i. g ⊗ ev i ⊗ y ⊖ a ⊗ (eu i ⊗ f ⊗ x))

  pub right_u_lem : f ⊗ g ⊗ (x ⊗ sv ⊕ y ⊗ su) ≡ x ⊗ (g ⊗ h) ⊕ y ⊗ (e ⊗ f)
  right_u_lem =
      solve (su ∷ sv ∷ f ∷ g ∷ x ∷ y ∷ []) (var 2 :* var 3 :* (var 4 :* var 1 :+ var 5 :* var 0))
        (var 4 :* (var 3 :* (var 1 :* var 2)) :+ var 5 :* (var 0 :* var 3 :* var 2)) refl
      ∙ (λ i. x ⊗ (g ⊗ ev i) ⊕ y ⊗ (eu i ⊗ f))

  pub right_v_lem : f ⊗ g ⊗ (y ⊗ sv ⊖ a ⊗ (x ⊗ su)) ≡ y ⊗ (g ⊗ h) ⊖ a ⊗ (x ⊗ (e ⊗ f))
  right_v_lem =
      solve (a ∷ su ∷ sv ∷ f ∷ g ∷ x ∷ y ∷ [])
        (var 3 :* var 4 :* (var 6 :* var 2 :- var 0 :* (var 5 :* var 1)))
        (var 6 :* (var 4 :* (var 2 :* var 3)) :- var 0 :* (var 5 :* (var 1 :* var 4 :* var 3))) refl
      ∙ (λ i. y ⊗ (g ⊗ ev i) ⊖ a ⊗ (x ⊗ (eu i ⊗ f)))
