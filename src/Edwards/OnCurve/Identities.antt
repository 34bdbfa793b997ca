-- ===== src/Edwards/OnCurve/Identities.antt =====
-- Identities of commutative rings behind the complete formulas. The names are those of the code:
-- for addition F is `difference`, G is `sum`, H is `twisted`, E is `cross`.
use ed301_eddsa.Base.{◌≡◌, refl, sym, ap, ◌≡⟨◌⟩◌, ◌∎, [], ◌∷◌}
use ed301_eddsa.Ring.{CommRing, ◌⊕◌, ◌⊗◌, ◌⊖◌}
use ed301_eddsa.Ring.Terms.{Term, var, squared, ◌:+◌, ◌:-◌, ◌:*◌}
use ed301_eddsa.Ring.Solver.{solve}

module _ {A : Type 0} ⦃r : CommRing A⦄ where
  abbrev pub double_of : A → A
  double_of a = a ⊕ a

  abbrev pub four_of : A → A
  four_of a = double_of (double_of a)

  -- a x^2 + y^2 = z^2 + d t^2.
  abbrev pub Curve : A → A → A → A → A → A → Type 0
  Curve a d x y z t = a ⊗ r.square x ⊕ r.square y ≡ r.square z ⊕ d ⊗ r.square t

  -- The curve equation of a sum, from three relations between the parts of the formula.
  pub sum-Curve :
      (a d e h c k v w : A)
      → a ⊗ r.square e ≡ r.square (k ⊕ c) ⊕ d ⊗ r.square w ⊖ r.square h
      → d ⊗ r.square e ≡ d ⊗ r.square v ⊕ four_of (c ⊗ k)
      → v ⊗ h ≡ w ⊗ (k ⊖ c)
      → Curve a d (e ⊗ (k ⊖ c)) ((k ⊕ c) ⊗ h) ((k ⊖ c) ⊗ (k ⊕ c)) (e ⊗ h)
  sum-Curve a d e h c k v w ha hd hv =
      a ⊗ r.square (e ⊗ f) ⊕ r.square (g ⊗ h)
      ≡⟨ solve (a ∷ e ∷ f ∷ g ∷ h ∷ [])
          (var 0 :* squared (var 1 :* var 2) :+ squared (var 3 :* var 4))
          (var 0 :* squared (var 1) :* squared (var 2) :+ squared (var 3 :* var 4)) refl ⟩
        a ⊗ r.square e ⊗ r.square f ⊕ r.square (g ⊗ h)
      ≡⟨ ap (λ q. q ⊗ r.square f ⊕ r.square (g ⊗ h)) ha ⟩
        (r.square (k ⊕ c) ⊕ d ⊗ r.square w ⊖ r.square h) ⊗ r.square f ⊕ r.square (g ⊗ h)
      ≡⟨ solve (d ∷ h ∷ c ∷ k ∷ w ∷ [])
          ((squared (var 3 :+ var 2) :+ var 0 :* squared (var 4) :- squared (var 1))
              :* squared (var 3 :- var 2)
            :+ squared ((var 3 :+ var 2) :* var 1))
          (squared ((var 3 :- var 2) :* (var 3 :+ var 2))
            :+ (var 0 :* squared (var 4 :* (var 3 :- var 2))
                :+ four (var 2 :* var 3) :* squared (var 1)))
          refl ⟩
        r.square (f ⊗ g) ⊕ (d ⊗ r.square (w ⊗ f) ⊕ four_of (c ⊗ k) ⊗ r.square h)
      ≡⟨ ap (λ q. r.square (f ⊗ g) ⊕ (d ⊗ r.square q ⊕ four_of (c ⊗ k) ⊗ r.square h)) (sym hv) ⟩
        r.square (f ⊗ g) ⊕ (d ⊗ r.square (v ⊗ h) ⊕ four_of (c ⊗ k) ⊗ r.square h)
      ≡⟨ solve (d ∷ h ∷ v ∷ f ⊗ g ∷ four_of (c ⊗ k) ∷ [])
          (squared (var 3) :+ (var 0 :* squared (var 2 :* var 1) :+ var 4 :* squared (var 1)))
          (squared (var 3) :+ (var 0 :* squared (var 2) :+ var 4) :* squared (var 1)) refl ⟩
        r.square (f ⊗ g) ⊕ (d ⊗ r.square v ⊕ four_of (c ⊗ k)) ⊗ r.square h
      ≡⟨ ap (λ q. r.square (f ⊗ g) ⊕ q ⊗ r.square h) (sym hd) ⟩
        r.square (f ⊗ g) ⊕ d ⊗ r.square e ⊗ r.square h
      ≡⟨ solve (d ∷ e ∷ h ∷ f ⊗ g ∷ [])
          (squared (var 3) :+ var 0 :* squared (var 1) :* squared (var 2))
          (squared (var 3) :+ var 0 :* squared (var 1 :* var 2)) refl ⟩
        r.square (f ⊗ g) ⊕ d ⊗ r.square (e ⊗ h) ∎
    where
      f : A
      f = k ⊖ c

      g : A
      g = k ⊕ c

      four : Term → Term
      four s = (s :+ s) :+ (s :+ s)
