-- ===== src/Edwards/Law.antt =====
-- edwards.rs: the affine addition law of the curve, as a total function on its points.
pub mod Identity
pub mod Fractions
pub mod Associative
pub mod Times
pub mod Refined
pub mod Computed
pub mod Order
pub mod Cyclic
pub mod Compared
pub mod Points
pub mod Published
pub mod Cofactor
use mathlib.Core.Option
use ed301_eddsa.Base.{◌≡◌, ◌≢◌, refl, sym, ap, ap₂, ◌∙◌, [], ◌∷◌}
use ed301_eddsa.Ring.{◌⊕◌, ◌⊗◌, ◌⊖◌}
use ed301_eddsa.Ring.Terms.{var, zero_term, one_term, minus, squared, ◌:+◌, ◌:-◌, ◌:*◌}
use ed301_eddsa.Ring.Solver.{solve}
use ed301_eddsa.Libraries.Bigint.{Bigint}
use ed301_eddsa.Field
use ed301_eddsa.Field.{FieldElement}
use ed301_eddsa.Field.Arith.{field_ring, invert_iff}
use ed301_eddsa.Field.Prime.{inverse_exists, mul_cancel, one_ne_zero}
use ed301_eddsa.Edwards.{EdwardsPoint, edwards_a, edwards_d, from_affine, add}
use ed301_eddsa.Edwards.OnCurve.{IsOnCurve, add-IsOnCurve}
use ed301_eddsa.Edwards.Affine.{Affine, Represents, cross_term, IsSum, add-Represents}
use ed301_eddsa.Edwards.Complete.{cross_never, one-square, minus_one-square}

module _ ⦃b : Bigint⦄ where
  -- a u^2 + v^2 = 1 + d u^2 v^2.
  abbrev pub OnAffine : Affine → Type 0
  OnAffine p =
      edwards_a ⊗ Field.square p.u ⊕ Field.square p.v
      ≡ field_ring.one_elem ⊕ edwards_d ⊗ Field.square (p.u ⊗ p.v)

  abbrev point_of : Affine → EdwardsPoint
  point_of p = from_affine p.u p.v

  pub OnAffine-IsOnCurve : (p : Affine) → OnAffine p → IsOnCurve (point_of p)
  unfolding from_affine
  OnAffine-IsOnCurve p h = record {
    extended = solve (p.u ∷ p.v ∷ []) (var 0 :* var 1) (one_term :* (var 0 :* var 1)) refl;
    curve =
        h
        ∙ solve (edwards_d ∷ p.u ∷ p.v ∷ []) (one_term :+ var 0 :* squared (var 1 :* var 2))
            (squared one_term :+ var 0 :* squared (var 1 :* var 2)) refl;
  }

  pub point_of-Represents : (p : Affine) → Represents (point_of p) p
  unfolding from_affine
  point_of-Represents p = record {
    z_inverse = field_ring.one_elem;
    unit = solve [] (one_term :* one_term) one_term refl;
    x_coordinate = solve (p.u ∷ []) (var 0) (var 0 :* one_term) refl;
    y_coordinate = solve (p.v ∷ []) (var 0) (var 0 :* one_term) refl;
    t_coordinate = solve (p.u ∷ p.v ∷ []) (var 0 :* var 1) (var 0 :* var 1 :* one_term) refl;
  }

  -- The cross term of two points of the curve is neither 1 nor -1.
  never :
      (p q : Affine) (e : FieldElement)
      → OnAffine p
      → OnAffine q
      → Field.square e ≡ Field.one_element
      → cross_term p q ≢ e
  unfolding from_affine
  never p q e h k he same =
      cross_never e (OnAffine-IsOnCurve p h) (OnAffine-IsOnCurve q k) one_ne_zero one_ne_zero he
        (same ∙ solve (e ∷ []) (var 0) (var 0 :* (one_term :* one_term)) refl)

  pub plus_ne_zero :
      (p q : Affine)
      → OnAffine p
      → OnAffine q
      → field_ring.one_elem ⊕ cross_term p q ≢ field_ring.zero_elem
  plus_ne_zero p q h k z = never p q (field_ring.neg field_ring.one_elem) h k minus_one-square (
      solve (cross_term p q ∷ []) (var 0) ((one_term :+ var 0) :- one_term) refl
      ∙ ap (λ t. t ⊖ field_ring.one_elem) z
      ∙ solve [] (zero_term :- one_term) (minus one_term) refl)

  pub minus_ne_zero :
      (p q : Affine)
      → OnAffine p
      → OnAffine q
      → field_ring.one_elem ⊖ cross_term p q ≢ field_ring.zero_elem
  minus_ne_zero p q h k z = never p q field_ring.one_elem h k one-square (
      solve (cross_term p q ∷ []) (var 0) (one_term :- (one_term :- var 0)) refl
      ∙ ap (◌⊖◌ field_ring.one_elem) z
      ∙ solve [] (one_term :- zero_term) one_term refl)

  -- The inverse, and zero where there is none.
  pub inverse_or_zero : FieldElement → FieldElement
  inverse_or_zero x = Option.get_or (Field.invert x) Field.zero_element

  pub inverse_or_zero-unit :
      (x : FieldElement) → x ≢ field_ring.zero_elem → x ⊗ inverse_or_zero x ≡ field_ring.one_elem
  unfolding inverse_or_zero
  inverse_or_zero-unit x h =
      let (y, unit) = inverse_exists x h in
      ap (λ o. x ⊗ Option.get_or o Field.zero_element) ((invert_iff x y).1 unit) ∙ unit

  pub sum : Affine → Affine → Affine
  sum p q = record {
    u = (p.u ⊗ q.v ⊕ p.v ⊗ q.u) ⊗ inverse_or_zero (field_ring.one_elem ⊕ cross_term p q);
    v =
        (p.v ⊗ q.v ⊖ edwards_a ⊗ (p.u ⊗ q.u))
        ⊗ inverse_or_zero (field_ring.one_elem ⊖ cross_term p q);
  }

  pub neutral : Affine
  neutral = record { u = field_ring.zero_elem; v = field_ring.one_elem }

  pub opposite : Affine → Affine
  opposite p = record { u = field_ring.neg p.u; v = p.v }

  divided : (n m w : FieldElement) → m ⊗ w ≡ field_ring.one_elem → n ⊗ w ⊗ m ≡ n
  divided n m w unit =
      solve (n ∷ m ∷ w ∷ []) (var 0 :* var 2 :* var 1) (var 0 :* (var 1 :* var 2)) refl
      ∙ ap (◌⊗◌ n) unit
      ∙ solve (n ∷ []) (var 0 :* one_term) (var 0) refl

  pub sum-IsSum : (p q : Affine) → OnAffine p → OnAffine q → IsSum p q (sum p q)
  unfolding sum
  sum-IsSum p q h k =
      let plus = inverse_or_zero-unit _ (plus_ne_zero p q h k) in
      let minus = inverse_or_zero-unit _ (minus_ne_zero p q h k) in
      record {
        plus_inverse = inverse_or_zero (field_ring.one_elem ⊕ cross_term p q);
        plus_unit = plus;
        minus_inverse = inverse_or_zero (field_ring.one_elem ⊖ cross_term p q);
        minus_unit = minus;
        u_law = divided _ _ _ plus;
        v_law = divided _ _ _ minus;
      }

  -- A sum is determined by the law.
  pub IsSum-unique :
      {p q s t : Affine} → OnAffine p → OnAffine q → IsSum p q s → IsSum p q t → s ≡ t
  IsSum-unique {p} {q} {s} {t} h k l m = λ i. record { u = same_u i; v = same_v i }
    where
      flip : (x y : FieldElement) → x ⊗ y ≡ y ⊗ x
      flip x y = field_ring.mul_comm x y

      same_u : s.u ≡ t.u
      same_u =
          mul_cancel s.u t.u (field_ring.one_elem ⊕ cross_term p q) (plus_ne_zero p q h k)
            (flip _ s.u ∙ l.u_law ∙ sym m.u_law ∙ flip t.u _)

      same_v : s.v ≡ t.v
      same_v =
          mul_cancel s.v t.v (field_ring.one_elem ⊖ cross_term p q) (minus_ne_zero p q h k)
            (flip _ s.v ∙ l.v_law ∙ sym m.v_law ∙ flip t.v _)

  -- Coordinates of a point of the curve with an invertible Z satisfy the affine equation.
  pub Represents-OnAffine :
      {p : EdwardsPoint} {s : Affine} → IsOnCurve p → Represents p s → OnAffine s
  Represents-OnAffine {p} {s} h k =
      solve (edwards_a ∷ s.u ∷ s.v ∷ []) (var 0 :* squared (var 1) :+ squared (var 2))
        (squared one_term :* (var 0 :* squared (var 1) :+ squared (var 2))) refl
      ∙ ap (λ w. Field.square w ⊗ (edwards_a ⊗ Field.square s.u ⊕ Field.square s.v)) (sym k.unit)
      ∙ solve (edwards_a ∷ s.u ∷ s.v ∷ p.z ∷ k.z_inverse ∷ [])
          (squared (var 3 :* var 4) :* (var 0 :* squared (var 1) :+ squared (var 2)))
          (squared (var 4) :* (var 0 :* squared (var 1 :* var 3) :+ squared (var 2 :* var 3))) refl
      ∙ (λ i.
          Field.square k.z_inverse
          ⊗ (edwards_a ⊗ Field.square (sym k.x_coordinate i) ⊕ Field.square (sym k.y_coordinate i)))
      ∙ ap (◌⊗◌ (Field.square k.z_inverse)) h.curve
      ∙ ap (λ w. Field.square k.z_inverse ⊗ (Field.square p.z ⊕ edwards_d ⊗ Field.square w))
          k.t_coordinate
      ∙ solve (edwards_d ∷ s.u ∷ s.v ∷ p.z ∷ k.z_inverse ∷ [])
          (squared (var 4) :* (squared (var 3) :+ var 0 :* squared (var 1 :* var 2 :* var 3)))
          (squared (var 3 :* var 4) :* (one_term :+ var 0 :* squared (var 1 :* var 2))) refl
      ∙ ap (λ w. Field.square w ⊗ (field_ring.one_elem ⊕ edwards_d ⊗ Field.square (s.u ⊗ s.v)))
          k.unit
      ∙ solve (edwards_d ∷ s.u ∷ s.v ∷ [])
          (squared one_term :* (one_term :+ var 0 :* squared (var 1 :* var 2)))
          (one_term :+ var 0 :* squared (var 1 :* var 2)) refl

  pub sum-OnAffine : (p q : Affine) → OnAffine p → OnAffine q → OnAffine (sum p q)
  sum-OnAffine p q h k =
      Represents-OnAffine (add-IsOnCurve (OnAffine-IsOnCurve p h) (OnAffine-IsOnCurve q k))
        (add-Represents (point_of-Represents p) (point_of-Represents q) (sum-IsSum p q h k))

  pub neutral-OnAffine : OnAffine neutral
  unfolding neutral
  neutral-OnAffine =
      solve (edwards_a ∷ edwards_d ∷ []) (var 0 :* squared zero_term :+ squared one_term)
        (one_term :+ var 1 :* squared (zero_term :* one_term)) refl

  pub opposite-OnAffine : (p : Affine) → OnAffine p → OnAffine (opposite p)
  unfolding opposite
  opposite-OnAffine p h =
      solve (edwards_a ∷ p.u ∷ p.v ∷ []) (var 0 :* squared (minus (var 1)) :+ squared (var 2))
        (var 0 :* squared (var 1) :+ squared (var 2)) refl
      ∙ h
      ∙ solve (edwards_d ∷ p.u ∷ p.v ∷ []) (one_term :+ var 0 :* squared (var 1 :* var 2))
          (one_term :+ var 0 :* squared (minus (var 1) :* var 2)) refl

  pub sum_comm : (p q : Affine) → sum p q ≡ sum q p
  unfolding sum
  sum_comm p q = λ i. record {
    u = crossed i ⊗ inverse_or_zero (field_ring.one_elem ⊕ cross i);
    v = twisted i ⊗ inverse_or_zero (field_ring.one_elem ⊖ cross i);
  }
    where
      cross : cross_term p q ≡ cross_term q p
      cross =
          solve (edwards_d ∷ p.u ∷ p.v ∷ q.u ∷ q.v ∷ [])
            (var 0 :* (var 1 :* var 2) :* (var 3 :* var 4))
            (var 0 :* (var 3 :* var 4) :* (var 1 :* var 2)) refl

      crossed : p.u ⊗ q.v ⊕ p.v ⊗ q.u ≡ q.u ⊗ p.v ⊕ q.v ⊗ p.u
      crossed =
          solve (p.u ∷ p.v ∷ q.u ∷ q.v ∷ []) (var 0 :* var 3 :+ var 1 :* var 2)
            (var 2 :* var 1 :+ var 3 :* var 0) refl

      twisted : p.v ⊗ q.v ⊖ edwards_a ⊗ (p.u ⊗ q.u) ≡ q.v ⊗ p.v ⊖ edwards_a ⊗ (q.u ⊗ p.u)
      twisted =
          solve (edwards_a ∷ p.u ∷ p.v ∷ q.u ∷ q.v ∷ [])
            (var 2 :* var 4 :- var 0 :* (var 1 :* var 3))
            (var 4 :* var 2 :- var 0 :* (var 3 :* var 1)) refl

  pub sum-neutral : (p : Affine) → OnAffine p → sum p neutral ≡ p
  unfolding neutral
  sum-neutral p h =
      IsSum-unique h neutral-OnAffine (sum-IsSum p neutral h neutral-OnAffine) (record {
        plus_inverse = field_ring.one_elem;
        plus_unit =
            solve (edwards_d ∷ p.u ∷ p.v ∷ [])
              ((one_term :+ var 0 :* (var 1 :* var 2) :* (zero_term :* one_term)) :* one_term)
              one_term refl;
        minus_inverse = field_ring.one_elem;
        minus_unit =
            solve (edwards_d ∷ p.u ∷ p.v ∷ [])
              ((one_term :- var 0 :* (var 1 :* var 2) :* (zero_term :* one_term)) :* one_term)
              one_term refl;
        u_law =
            solve (edwards_d ∷ p.u ∷ p.v ∷ [])
              (var 1 :* (one_term :+ var 0 :* (var 1 :* var 2) :* (zero_term :* one_term)))
              (var 1 :* one_term :+ var 2 :* zero_term) refl;
        v_law =
            solve (edwards_d ∷ p.u ∷ p.v ∷ edwards_a ∷ [])
              (var 2 :* (one_term :- var 0 :* (var 1 :* var 2) :* (zero_term :* one_term)))
              (var 2 :* one_term :- var 3 :* (var 1 :* zero_term)) refl;
      })
