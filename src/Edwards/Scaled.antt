-- ===== src/Edwards/Scaled.antt =====
-- edwards.rs: projective equality of points with its factor, and the formulas.
use ed301_eddsa.Base.{◌≡◌, refl, ap, ap₂, ◌∙◌, [], ◌∷◌}
use ed301_eddsa.Ring.{◌⊗◌}
use ed301_eddsa.Ring.Terms.{Term, var, one_term, squared, ◌:+◌, ◌:-◌, ◌:*◌}
use ed301_eddsa.Ring.Solver.{solve}
use ed301_eddsa.Libraries.Bigint.{Bigint}
use ed301_eddsa.Field
use ed301_eddsa.Field.{FieldElement}
use ed301_eddsa.Field.Arith.{field_ring}
use ed301_eddsa.Edwards.{EdwardsPoint, edwards_a, edwards_d, two, add, double}

module _ ⦃b : Bigint⦄ where
  -- `q` is `p` times an invertible factor.
  pub record IsScaled (p q : EdwardsPoint) : Type 0 where
    pub factor : FieldElement
    pub inverse : FieldElement
    pub unit : factor ⊗ inverse ≡ field_ring.one_elem
    pub x_scaled : q.x ≡ factor ⊗ p.x
    pub y_scaled : q.y ≡ factor ⊗ p.y
    pub z_scaled : q.z ≡ factor ⊗ p.z
    pub t_scaled : q.t ≡ factor ⊗ p.t

  -- The point with all coordinates scaled.
  abbrev pub scale : FieldElement → EdwardsPoint → EdwardsPoint
  scale c p = record { x = c ⊗ p.x; y = c ⊗ p.y; z = c ⊗ p.z; t = c ⊗ p.t }

  pub scaled_eq : {p q : EdwardsPoint} → (h : IsScaled p q) → q ≡ scale h.factor p
  scaled_eq h =
      λ i. record { x = h.x_scaled i; y = h.y_scaled i; z = h.z_scaled i; t = h.t_scaled i }

  pub double-scale :
      (c w : FieldElement) (p : EdwardsPoint)
      → c ⊗ w ≡ field_ring.one_elem
      → IsScaled (double p) (double (scale c p))
  unfolding double
  double-scale c w p unit = record {
    factor = c ⊗ c ⊗ (c ⊗ c);
    inverse = w ⊗ w ⊗ (w ⊗ w);
    unit =
        solve (c ∷ w ∷ [])
          (var 0 :* var 0 :* (var 0 :* var 0) :* (var 1 :* var 1 :* (var 1 :* var 1)))
          (squared (squared (var 0 :* var 1))) refl
        ∙ (λ i. Field.square (Field.square (unit i)))
        ∙ solve [] (squared (squared one_term)) one_term refl;
    x_scaled =
        solve (c ∷ edwards_a ∷ two ∷ p.x ∷ p.y ∷ p.z ∷ []) (cross cx cy :* difference cx cy cz)
          (fourth :* (cross x y :* difference x y z)) refl;
    y_scaled =
        solve (c ∷ edwards_a ∷ two ∷ p.x ∷ p.y ∷ p.z ∷ []) (sum cx cy :* twisted cx cy)
          (fourth :* (sum x y :* twisted x y)) refl;
    z_scaled =
        solve (c ∷ edwards_a ∷ two ∷ p.x ∷ p.y ∷ p.z ∷ []) (difference cx cy cz :* sum cx cy)
          (fourth :* (difference x y z :* sum x y)) refl;
    t_scaled =
        solve (c ∷ edwards_a ∷ two ∷ p.x ∷ p.y ∷ p.z ∷ []) (cross cx cy :* twisted cx cy)
          (fourth :* (cross x y :* twisted x y)) refl;
  }
    where
      x : Term
      x = var 3

      y : Term
      y = var 4

      z : Term
      z = var 5

      cx : Term
      cx = var 0 :* var 3

      cy : Term
      cy = var 0 :* var 4

      cz : Term
      cz = var 0 :* var 5

      fourth : Term
      fourth = var 0 :* var 0 :* (var 0 :* var 0)

      cross : Term → Term → Term
      cross x y = squared (x :+ y) :- squared x :- squared y

      sum : Term → Term → Term
      sum x y = var 1 :* squared x :+ squared y

      difference : Term → Term → Term → Term
      difference x y z = sum x y :- var 2 :* squared z

      twisted : Term → Term → Term
      twisted x y = var 1 :* squared x :- squared y

  pub add-scale :
      (c w : FieldElement) (p q : EdwardsPoint)
      → c ⊗ w ≡ field_ring.one_elem
      → IsScaled (add p q) (add (scale c p) q)
  unfolding add
  add-scale c w p q unit = record {
    factor = c ⊗ c;
    inverse = w ⊗ w;
    unit =
        solve (c ∷ w ∷ []) (var 0 :* var 0 :* (var 1 :* var 1)) (squared (var 0 :* var 1)) refl
        ∙ (λ i. Field.square (unit i))
        ∙ solve [] (squared one_term) one_term refl;
    x_scaled =
        solve (c ∷ edwards_d ∷ p.x ∷ p.y ∷ p.z ∷ p.t ∷ q.x ∷ q.y ∷ q.z ∷ q.t ∷ [])
          (cross cx cy :* difference cz ct) (second :* (cross x y :* difference z t)) refl;
    y_scaled =
        solve (c ∷ edwards_d ∷ p.x ∷ p.y ∷ p.z ∷ p.t ∷ q.x ∷ q.y ∷ q.z ∷ q.t ∷ edwards_a ∷ [])
          (sum cz ct :* twisted cx cy) (second :* (sum z t :* twisted x y)) refl;
    z_scaled =
        solve (c ∷ edwards_d ∷ p.x ∷ p.y ∷ p.z ∷ p.t ∷ q.x ∷ q.y ∷ q.z ∷ q.t ∷ [])
          (difference cz ct :* sum cz ct) (second :* (difference z t :* sum z t)) refl;
    t_scaled =
        solve (c ∷ edwards_d ∷ p.x ∷ p.y ∷ p.z ∷ p.t ∷ q.x ∷ q.y ∷ q.z ∷ q.t ∷ edwards_a ∷ [])
          (cross cx cy :* twisted cx cy) (second :* (cross x y :* twisted x y)) refl;
  }
    where
      x : Term
      x = var 2

      y : Term
      y = var 3

      z : Term
      z = var 4

      t : Term
      t = var 5

      cx : Term
      cx = var 0 :* var 2

      cy : Term
      cy = var 0 :* var 3

      cz : Term
      cz = var 0 :* var 4

      ct : Term
      ct = var 0 :* var 5

      second : Term
      second = var 0 :* var 0

      cross : Term → Term → Term
      cross x y = (x :+ y) :* (var 6 :+ var 7) :- x :* var 6 :- y :* var 7

      difference : Term → Term → Term
      difference z t = z :* var 8 :- var 1 :* t :* var 9

      sum : Term → Term → Term
      sum z t = z :* var 8 :+ var 1 :* t :* var 9

      twisted : Term → Term → Term
      twisted x y = y :* var 7 :- var 10 :* (x :* var 6)

  pub same-IsScaled : (p : EdwardsPoint) → IsScaled p p
  same-IsScaled p = record {
    factor = field_ring.one_elem;
    inverse = field_ring.one_elem;
    unit = solve [] (one_term :* one_term) one_term refl;
    x_scaled = solve (p.x ∷ []) (var 0) (one_term :* var 0) refl;
    y_scaled = solve (p.y ∷ []) (var 0) (one_term :* var 0) refl;
    z_scaled = solve (p.z ∷ []) (var 0) (one_term :* var 0) refl;
    t_scaled = solve (p.t ∷ []) (var 0) (one_term :* var 0) refl;
  }

  pub chain-IsScaled : {p q r : EdwardsPoint} → IsScaled p q → IsScaled q r → IsScaled p r
  chain-IsScaled {p} h k = record {
    factor = k.factor ⊗ h.factor;
    inverse = k.inverse ⊗ h.inverse;
    unit =
        solve (h.factor ∷ h.inverse ∷ k.factor ∷ k.inverse ∷ [])
          (var 2 :* var 0 :* (var 3 :* var 1)) (var 0 :* var 1 :* (var 2 :* var 3)) refl
        ∙ ap₂ ◌⊗◌ h.unit k.unit
        ∙ solve [] (one_term :* one_term) one_term refl;
    x_scaled = k.x_scaled ∙ ap (◌⊗◌ k.factor) h.x_scaled ∙ regroup p.x;
    y_scaled = k.y_scaled ∙ ap (◌⊗◌ k.factor) h.y_scaled ∙ regroup p.y;
    z_scaled = k.z_scaled ∙ ap (◌⊗◌ k.factor) h.z_scaled ∙ regroup p.z;
    t_scaled = k.t_scaled ∙ ap (◌⊗◌ k.factor) h.t_scaled ∙ regroup p.t;
  }
    where
      regroup : (x : FieldElement) → k.factor ⊗ (h.factor ⊗ x) ≡ k.factor ⊗ h.factor ⊗ x
      regroup x =
          solve (k.factor ∷ h.factor ∷ x ∷ []) (var 0 :* (var 1 :* var 2)) (var 0 :* var 1 :* var 2)
            refl
