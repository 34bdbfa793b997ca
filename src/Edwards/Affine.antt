-- ===== src/Edwards/Affine.antt =====
-- edwards.rs: the formulas in extended coordinates against the affine addition law of the curve.
use ed301_eddsa.Base.{◌≡◌, refl, sym, ap, ap₂, ◌∙◌, [], ◌∷◌}
use ed301_eddsa.Ring.{◌⊕◌, ◌⊗◌, ◌⊖◌}
use ed301_eddsa.Ring.Terms.{Term, var, zero_term, one_term, minus, squared, ◌:+◌, ◌:-◌, ◌:*◌}
use ed301_eddsa.Ring.Solver.{solve}
use ed301_eddsa.Libraries.Bigint.{Bigint}
use ed301_eddsa.Field
use ed301_eddsa.Field.{FieldElement}
use ed301_eddsa.Field.Arith.{field_ring}
use ed301_eddsa.Edwards.{EdwardsPoint, edwards_a, edwards_d, identity, add, double}
use ed301_eddsa.Edwards.OnCurve.{IsOnCurve}
use ed301_eddsa.Edwards.Group.{double-neg_add}

module _ ⦃b : Bigint⦄ where
  -- An affine point of the plane.
  pub record Affine : Type 0 where
    pub u : FieldElement
    pub v : FieldElement

  -- The extended point stands for the affine one: (u Z : v Z : Z : u v Z), with Z invertible.
  pub record Represents (p : EdwardsPoint) (a : Affine) : Type 0 where
    pub z_inverse : FieldElement
    pub unit : p.z ⊗ z_inverse ≡ field_ring.one_elem
    pub x_coordinate : p.x ≡ a.u ⊗ p.z
    pub y_coordinate : p.y ≡ a.v ⊗ p.z
    pub t_coordinate : p.t ≡ a.u ⊗ a.v ⊗ p.z

  -- d u1 v1 u2 v2.
  abbrev pub cross_term : Affine → Affine → FieldElement
  cross_term p q = edwards_d ⊗ (p.u ⊗ p.v) ⊗ (q.u ⊗ q.v)

  -- The twisted Edwards law, where both denominators have an inverse:
  --   u3 (1 + d u1 v1 u2 v2) = u1 v2 + v1 u2,  v3 (1 - d u1 v1 u2 v2) = v1 v2 - a u1 u2.
  pub record IsSum (p q s : Affine) : Type 0 where
    pub plus_inverse : FieldElement
    pub plus_unit : (field_ring.one_elem ⊕ cross_term p q) ⊗ plus_inverse ≡ field_ring.one_elem
    pub minus_inverse : FieldElement
    pub minus_unit : (field_ring.one_elem ⊖ cross_term p q) ⊗ minus_inverse ≡ field_ring.one_elem
    pub u_law : s.u ⊗ (field_ring.one_elem ⊕ cross_term p q) ≡ p.u ⊗ q.v ⊕ p.v ⊗ q.u
    pub v_law : s.v ⊗ (field_ring.one_elem ⊖ cross_term p q) ≡ p.v ⊗ q.v ⊖ edwards_a ⊗ (p.u ⊗ q.u)

  pub identity-Represents :
      Represents identity (record { u = field_ring.zero_elem; v = field_ring.one_elem })
  unfolding identity
  identity-Represents = record {
    z_inverse = field_ring.one_elem;
    unit = solve [] (one_term :* one_term) one_term refl;
    x_coordinate = solve [] zero_term (zero_term :* one_term) refl;
    y_coordinate = solve [] one_term (one_term :* one_term) refl;
    t_coordinate = solve [] zero_term (zero_term :* one_term :* one_term) refl;
  }

  module _ {p q : EdwardsPoint} {a c s : Affine} (h : Represents p a) (k : Represents q c)
      (l : IsSum a c s) where
    abbrev e : FieldElement
    e = cross_term a c

    abbrev zz : FieldElement
    zz = p.z ⊗ q.z

    cross_part :
        (p.x ⊕ p.y) ⊗ (q.x ⊕ q.y) ⊖ p.x ⊗ q.x ⊖ p.y ⊗ q.y ≡ zz ⊗ (s.u ⊗ (field_ring.one_elem ⊕ e))
    cross_part =
        (λ i.
          (h.x_coordinate i ⊕ h.y_coordinate i) ⊗ (k.x_coordinate i ⊕ k.y_coordinate i)
          ⊖ h.x_coordinate i ⊗ k.x_coordinate i
          ⊖ h.y_coordinate i ⊗ k.y_coordinate i)
        ∙ solve (a.u ∷ a.v ∷ c.u ∷ c.v ∷ p.z ∷ q.z ∷ [])
            ((x1 :+ y1) :* (x2 :+ y2) :- x1 :* x2 :- y1 :* y2)
            (var 4 :* var 5 :* (var 0 :* var 3 :+ var 1 :* var 2)) refl
        ∙ ap (◌⊗◌ zz) (sym l.u_law)
      where
        x1 : Term
        x1 = var 0 :* var 4

        y1 : Term
        y1 = var 1 :* var 4

        x2 : Term
        x2 = var 2 :* var 5

        y2 : Term
        y2 = var 3 :* var 5

    twisted_part : p.y ⊗ q.y ⊖ edwards_a ⊗ (p.x ⊗ q.x) ≡ zz ⊗ (s.v ⊗ (field_ring.one_elem ⊖ e))
    twisted_part =
        (λ i.
          h.y_coordinate i ⊗ k.y_coordinate i ⊖ edwards_a ⊗ (h.x_coordinate i ⊗ k.x_coordinate i))
        ∙ solve (a.u ∷ a.v ∷ c.u ∷ c.v ∷ p.z ∷ q.z ∷ edwards_a ∷ [])
            (var 1 :* var 4 :* (var 3 :* var 5) :- var 6 :* (var 0 :* var 4 :* (var 2 :* var 5)))
            (var 4 :* var 5 :* (var 1 :* var 3 :- var 6 :* (var 0 :* var 2))) refl
        ∙ ap (◌⊗◌ zz) (sym l.v_law)

    dt_part : edwards_d ⊗ p.t ⊗ q.t ≡ zz ⊗ e
    dt_part =
        (λ i. edwards_d ⊗ h.t_coordinate i ⊗ k.t_coordinate i)
        ∙ solve (a.u ∷ a.v ∷ c.u ∷ c.v ∷ p.z ∷ q.z ∷ edwards_d ∷ [])
            (var 6 :* (var 0 :* var 1 :* var 4) :* (var 2 :* var 3 :* var 5))
            (var 4 :* var 5 :* (var 6 :* (var 0 :* var 1) :* (var 2 :* var 3))) refl

    difference_part : zz ⊖ edwards_d ⊗ p.t ⊗ q.t ≡ zz ⊗ (field_ring.one_elem ⊖ e)
    difference_part =
        ap (◌⊖◌ zz) dt_part
        ∙ solve (zz ∷ e ∷ []) (var 0 :- var 0 :* var 1) (var 0 :* (one_term :- var 1)) refl

    sum_part : zz ⊕ edwards_d ⊗ p.t ⊗ q.t ≡ zz ⊗ (field_ring.one_elem ⊕ e)
    sum_part =
        ap (◌⊕◌ zz) dt_part
        ∙ solve (zz ∷ e ∷ []) (var 0 :+ var 0 :* var 1) (var 0 :* (one_term :+ var 1)) refl

    abbrev sum_inverse : FieldElement
    sum_inverse =
        h.z_inverse ⊗ k.z_inverse ⊗ (h.z_inverse ⊗ k.z_inverse) ⊗ (l.minus_inverse ⊗ l.plus_inverse)

    z_part :
        zz ⊗ (field_ring.one_elem ⊖ e) ⊗ (zz ⊗ (field_ring.one_elem ⊕ e)) ⊗ sum_inverse
        ≡ field_ring.one_elem
    z_part =
        solve (p.z ∷ q.z ∷ h.z_inverse ∷ k.z_inverse ∷ e ∷ l.minus_inverse ∷ l.plus_inverse ∷ [])
          (var 0
            :* var 1
            :* (one_term :- var 4)
            :* (var 0 :* var 1 :* (one_term :+ var 4))
            :* (var 2 :* var 3 :* (var 2 :* var 3) :* (var 5 :* var 6)))
          (squared (var 0 :* var 2)
            :* squared (var 1 :* var 3)
            :* ((one_term :- var 4) :* var 5 :* ((one_term :+ var 4) :* var 6)))
          refl
        ∙ (λ i.
            Field.square (h.unit i) ⊗ Field.square (k.unit i) ⊗ (l.minus_unit i ⊗ l.plus_unit i))
        ∙ solve [] (squared one_term :* squared one_term :* (one_term :* one_term)) one_term refl

    -- Where two extended points stand for affine points, and a third affine point is their sum by
    -- the twisted Edwards law with both denominators invertible, the sum of the extended points
    -- stands for the third, with an invertible Z.
    pub add-Represents : Represents (add p q) s
    unfolding add
    add-Represents = record {
      z_inverse = sum_inverse;
      unit = ap₂ (λ f g. f ⊗ g ⊗ sum_inverse) difference_part sum_part ∙ z_part;
      x_coordinate =
          ap₂ ◌⊗◌ cross_part difference_part
          ∙ regroup_x
          ∙ ap (◌⊗◌ s.u) (sym (ap₂ ◌⊗◌ difference_part sum_part));
      y_coordinate =
          ap₂ ◌⊗◌ sum_part twisted_part
          ∙ regroup_y
          ∙ ap (◌⊗◌ s.v) (sym (ap₂ ◌⊗◌ difference_part sum_part));
      t_coordinate =
          ap₂ ◌⊗◌ cross_part twisted_part
          ∙ regroup_t
          ∙ ap (◌⊗◌ (s.u ⊗ s.v)) (sym (ap₂ ◌⊗◌ difference_part sum_part));
    }
      where
        f : Term
        f = var 0 :* (one_term :- var 1)

        g : Term
        g = var 0 :* (one_term :+ var 1)

        regroup_x :
            zz ⊗ (s.u ⊗ (field_ring.one_elem ⊕ e)) ⊗ (zz ⊗ (field_ring.one_elem ⊖ e))
            ≡ s.u ⊗ (zz ⊗ (field_ring.one_elem ⊖ e) ⊗ (zz ⊗ (field_ring.one_elem ⊕ e)))
        regroup_x =
            solve (zz ∷ e ∷ s.u ∷ []) (var 0 :* (var 2 :* (one_term :+ var 1)) :* f)
              (var 2 :* (f :* g)) refl

        regroup_y :
            zz ⊗ (field_ring.one_elem ⊕ e) ⊗ (zz ⊗ (s.v ⊗ (field_ring.one_elem ⊖ e)))
            ≡ s.v ⊗ (zz ⊗ (field_ring.one_elem ⊖ e) ⊗ (zz ⊗ (field_ring.one_elem ⊕ e)))
        regroup_y =
            solve (zz ∷ e ∷ s.v ∷ []) (g :* (var 0 :* (var 2 :* (one_term :- var 1))))
              (var 2 :* (f :* g)) refl

        regroup_t :
            zz ⊗ (s.u ⊗ (field_ring.one_elem ⊕ e)) ⊗ (zz ⊗ (s.v ⊗ (field_ring.one_elem ⊖ e)))
            ≡ s.u ⊗ s.v ⊗ (zz ⊗ (field_ring.one_elem ⊖ e) ⊗ (zz ⊗ (field_ring.one_elem ⊕ e)))
        regroup_t =
            solve (zz ∷ e ∷ s.u ∷ s.v ∷ [])
              (var 0 :* (var 2 :* (one_term :+ var 1)) :* (var 0 :* (var 3 :* (one_term :- var 1))))
              (var 2 :* var 3 :* (f :* g)) refl

  -- A point with all coordinates negated stands for the same affine point.
  negated-Represents :
      (p q : EdwardsPoint) (a : Affine)
      → q.x ≡ field_ring.neg p.x
      → q.y ≡ field_ring.neg p.y
      → q.z ≡ field_ring.neg p.z
      → q.t ≡ field_ring.neg p.t
      → Represents p a
      → Represents q a
  negated-Represents p q a ex ey ez et h = record {
    z_inverse = field_ring.neg h.z_inverse;
    unit =
        ap (λ z. z ⊗ field_ring.neg h.z_inverse) ez
        ∙ solve (p.z ∷ h.z_inverse ∷ []) (minus (var 0) :* minus (var 1)) (var 0 :* var 1) refl
        ∙ h.unit;
    x_coordinate = scaled q.x p.x a.u ex h.x_coordinate;
    y_coordinate = scaled q.y p.y a.v ey h.y_coordinate;
    t_coordinate = scaled q.t p.t (a.u ⊗ a.v) et h.t_coordinate;
  }
    where
      scaled : (c c' w : FieldElement) → c ≡ field_ring.neg c' → c' ≡ w ⊗ p.z → c ≡ w ⊗ q.z
      scaled c c' w e k =
          e
          ∙ ap field_ring.neg k
          ∙ solve (w ∷ p.z ∷ []) (minus (var 0 :* var 1)) (var 0 :* minus (var 1)) refl
          ∙ ap (◌⊗◌ w) (sym ez)

  -- For a point of the curve that stands for an affine point, and an affine point that is the sum
  -- of that with itself by the twisted Edwards law with both denominators invertible, the
  -- dedicated doubling formula gives an extended point that stands for the sum.
  pub double-Represents :
      {p : EdwardsPoint} {a s : Affine}
      → IsOnCurve p
      → Represents p a
      → IsSum a a s
      → Represents (double p) s
  double-Represents {p} {a} {s} c h l =
      let (ex, ey, ez, et) = double-neg_add p c in
      negated-Represents (add p p) (double p) s ex ey ez et (add-Represents h h l)
