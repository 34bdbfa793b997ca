-- ===== src/Edwards/Law/Associative.antt =====
-- edwards.rs: the affine addition law is associative, and every point has an opposite.
use ed301_eddsa.Base.{◌≡◌, ◌≢◌, refl, sym, ap, ◌∙◌, List, [], ◌∷◌}
use ed301_eddsa.Ring.{◌⊕◌, ◌⊗◌, ◌⊖◌}
use ed301_eddsa.Ring.Terms.{Term, var, zero_term, one_term, minus, squared, ◌:+◌, ◌:-◌, ◌:*◌, value}
use ed301_eddsa.Ring.Laws.{add_right_cancel}
use ed301_eddsa.Ring.Solver.{solve}
use ed301_eddsa.Libraries.Bigint.{Bigint}
use ed301_eddsa.Field
use ed301_eddsa.Field.{FieldElement}
use ed301_eddsa.Field.Arith.{field_ring}
use ed301_eddsa.Field.Prime.{mul_cancel, mul-ne-zero}
use ed301_eddsa.Edwards.{edwards_a, edwards_d}
use ed301_eddsa.Edwards.Affine.{Affine, cross_term, IsSum}
use ed301_eddsa.Edwards.Law.{
  OnAffine, sum, neutral, opposite, sum-IsSum, IsSum-unique, sum-OnAffine, opposite-OnAffine,
  plus_ne_zero, minus_ne_zero, inverse_or_zero, inverse_or_zero-unit,
}
use ed301_eddsa.Edwards.Law.Fractions.{
  left_plus_lem, left_minus_lem, right_plus_lem, right_minus_lem, left_u_lem, left_v_lem,
  right_u_lem, right_v_lem,
}
use ed301_eddsa.Edwards.Law.Identity.{
  u1, u2, u3, v1, v2, v3, left_u, left_plus, right_u, right_plus, left_v, left_minus, right_v,
  right_minus, f12, g12, f23, g23, u_identity, v_identity,
}

module _ ⦃b : Bigint⦄ where
  pub sum-opposite : (p : Affine) → OnAffine p → sum p (opposite p) ≡ neutral
  unfolding neutral opposite
  sum-opposite p h =
      IsSum-unique h (opposite-OnAffine p h) (sum-IsSum p (opposite p) h (opposite-OnAffine p h))
        (record {
          plus_inverse = inverse_or_zero (field_ring.one_elem ⊕ cross_term p (opposite p));
          plus_unit =
              inverse_or_zero-unit _ (plus_ne_zero p (opposite p) h (opposite-OnAffine p h));
          minus_inverse = inverse_or_zero (field_ring.one_elem ⊖ cross_term p (opposite p));
          minus_unit =
              inverse_or_zero-unit _ (minus_ne_zero p (opposite p) h (opposite-OnAffine p h));
          u_law =
              solve (edwards_d ∷ p.u ∷ p.v ∷ [])
                (zero_term :* (one_term :+ var 0 :* (var 1 :* var 2) :* (minus (var 1) :* var 2)))
                (var 1 :* var 2 :+ var 2 :* minus (var 1)) refl;
          v_law =
              solve (edwards_d ∷ p.u ∷ p.v ∷ [])
                (one_term :* (one_term :- var 0 :* (var 1 :* var 2) :* (minus (var 1) :* var 2)))
                (one_term :+ var 0 :* squared (var 1 :* var 2)) refl
              ∙ sym h
              ∙ solve (edwards_a ∷ p.u ∷ p.v ∷ []) (var 0 :* squared (var 1) :+ squared (var 2))
                  (var 2 :* var 2 :- var 0 :* (var 1 :* minus (var 1))) refl;
        })

  -- Equal fractions, over denominators other than zero.
  equal_fractions :
      (x x' n n' m m' : FieldElement)
      → m ≢ field_ring.zero_elem
      → m' ≢ field_ring.zero_elem
      → x ⊗ m ≡ n
      → x' ⊗ m' ≡ n'
      → n ⊗ m' ≡ n' ⊗ m
      → x ≡ x'
  equal_fractions x x' n n' m m' hm hm' e e' cross =
      mul_cancel x x' (m ⊗ m') (mul-ne-zero m m' hm hm') (
        solve (x ∷ m ∷ m' ∷ []) (var 1 :* var 2 :* var 0) (var 0 :* var 1 :* var 2) refl
        ∙ ap (λ t. t ⊗ m') e
        ∙ cross
        ∙ ap (λ t. t ⊗ m) (sym e')
        ∙ solve (x' ∷ m ∷ m' ∷ []) (var 0 :* var 2 :* var 1) (var 1 :* var 2 :* var 0) refl)

  module _ (p q r : Affine) (hp : OnAffine p) (hq : OnAffine q) (hr : OnAffine r) where
    abbrev point_values : List FieldElement
    point_values = edwards_a ∷ edwards_d ∷ p.u ∷ p.v ∷ q.u ∷ q.v ∷ r.u ∷ r.v ∷ []

    abbrev at : Term → FieldElement
    at t = value point_values t

    -- The three equations of the curve, in any combination.
    equations :
        (s t w : FieldElement)
        → s ⊗ (edwards_a ⊗ Field.square p.u ⊕ Field.square p.v)
            ⊕ t ⊗ (edwards_a ⊗ Field.square q.u ⊕ Field.square q.v)
            ⊕ w ⊗ (edwards_a ⊗ Field.square r.u ⊕ Field.square r.v)
          ≡ s ⊗ (field_ring.one_elem ⊕ edwards_d ⊗ Field.square (p.u ⊗ p.v))
            ⊕ t ⊗ (field_ring.one_elem ⊕ edwards_d ⊗ Field.square (q.u ⊗ q.v))
            ⊕ w ⊗ (field_ring.one_elem ⊕ edwards_d ⊗ Field.square (r.u ⊗ r.v))
    equations s t w = λ i. s ⊗ hp i ⊕ t ⊗ hq i ⊕ w ⊗ hr i

    cross_u : at left_u ⊗ at right_plus ≡ at right_u ⊗ at left_plus
    cross_u = add_right_cancel _ _ _ (
        u_identity point_values
        ∙ ap (◌⊕◌ (at right_u ⊗ at left_plus)) (equations (at u1) (at u2) (at u3)))

    cross_v : at left_v ⊗ at right_minus ≡ at right_v ⊗ at left_minus
    cross_v = add_right_cancel _ _ _ (
        v_identity point_values
        ∙ ap (◌⊕◌ (at right_v ⊗ at left_minus)) (equations (at v1) (at v2) (at v3)))

  -- A fraction with a common factor put into numerator and denominator.
  widened : (x k m n N D : FieldElement) → D ≡ k ⊗ m → x ⊗ m ≡ n → k ⊗ n ≡ N → x ⊗ D ≡ N
  widened x k m n N D e h l =
      ap (◌⊗◌ x) e
      ∙ solve (x ∷ k ∷ m ∷ []) (var 0 :* (var 1 :* var 2)) (var 1 :* (var 0 :* var 2)) refl
      ∙ ap (◌⊗◌ k) h
      ∙ l

  module _ (p q r : Affine) (hp : OnAffine p) (hq : OnAffine q) (hr : OnAffine r) where
    abbrev s : Affine
    s = sum p q

    abbrev s' : Affine
    s' = sum q r

    hs : OnAffine s
    hs = sum-OnAffine p q hp hq

    hs' : OnAffine s'
    hs' = sum-OnAffine q r hq hr

    abbrev value_at : Term → FieldElement
    value_at t = value (edwards_a ∷ edwards_d ∷ p.u ∷ p.v ∷ q.u ∷ q.v ∷ r.u ∷ r.v ∷ []) t

    nonzero :
        (D f g m : FieldElement)
        → D ≡ f ⊗ g ⊗ m
        → f ≢ field_ring.zero_elem
        → g ≢ field_ring.zero_elem
        → m ≢ field_ring.zero_elem
        → D ≢ field_ring.zero_elem
    nonzero D f g m e hf hg hm z = mul-ne-zero (f ⊗ g) m (mul-ne-zero f g hf hg) hm (sym e ∙ z)

    first : IsSum p q s
    first = sum-IsSum p q hp hq

    second : IsSum q r s'
    second = sum-IsSum q r hq hr

    same_u : (sum s r).u ≡ (sum p s').u
    same_u =
        equal_fractions _ _ (value_at left_u) (value_at right_u) (value_at left_plus)
          (value_at right_plus)
          (nonzero _ (value_at f12) (value_at g12) _ left (minus_ne_zero p q hp hq)
            (plus_ne_zero p q hp hq) (plus_ne_zero s r hs hr))
          (nonzero _ (value_at f23) (value_at g23) _ right (minus_ne_zero q r hq hr)
            (plus_ne_zero q r hq hr) (plus_ne_zero p s' hp hs'))
          (widened _ _ _ _ _ _ left (sum-IsSum s r hs hr).u_law
            (left_u_lem edwards_a edwards_d s.u s.v _ _ _ _ r.u r.v first.u_law first.v_law))
          (widened _ _ _ _ _ _ right (sum-IsSum p s' hp hs').u_law
            (right_u_lem edwards_a edwards_d s'.u s'.v _ _ _ _ p.u p.v second.u_law second.v_law))
          (cross_u p q r hp hq hr)
      where
        left :
            value_at left_plus
            ≡ value_at f12 ⊗ value_at g12 ⊗ (field_ring.one_elem ⊕ cross_term s r)
        left = left_plus_lem edwards_a edwards_d s.u s.v _ _ _ _ r.u r.v first.u_law first.v_law

        right :
            value_at right_plus
            ≡ value_at f23 ⊗ value_at g23 ⊗ (field_ring.one_elem ⊕ cross_term p s')
        right =
            right_plus_lem edwards_a edwards_d s'.u s'.v _ _ _ _ p.u p.v second.u_law second.v_law

    same_v : (sum s r).v ≡ (sum p s').v
    same_v =
        equal_fractions _ _ (value_at left_v) (value_at right_v) (value_at left_minus)
          (value_at right_minus)
          (nonzero _ (value_at f12) (value_at g12) _ left (minus_ne_zero p q hp hq)
            (plus_ne_zero p q hp hq) (minus_ne_zero s r hs hr))
          (nonzero _ (value_at f23) (value_at g23) _ right (minus_ne_zero q r hq hr)
            (plus_ne_zero q r hq hr) (minus_ne_zero p s' hp hs'))
          (widened _ _ _ _ _ _ left (sum-IsSum s r hs hr).v_law
            (left_v_lem edwards_a edwards_d s.u s.v _ _ _ _ r.u r.v first.u_law first.v_law))
          (widened _ _ _ _ _ _ right (sum-IsSum p s' hp hs').v_law
            (right_v_lem edwards_a edwards_d s'.u s'.v _ _ _ _ p.u p.v second.u_law second.v_law))
          (cross_v p q r hp hq hr)
      where
        left :
            value_at left_minus
            ≡ value_at f12 ⊗ value_at g12 ⊗ (field_ring.one_elem ⊖ cross_term s r)
        left = left_minus_lem edwards_a edwards_d s.u s.v _ _ _ _ r.u r.v first.u_law first.v_law

        right :
            value_at right_minus
            ≡ value_at f23 ⊗ value_at g23 ⊗ (field_ring.one_elem ⊖ cross_term p s')
        right =
            right_minus_lem edwards_a edwards_d s'.u s'.v _ _ _ _ p.u p.v second.u_law second.v_law

    -- The law is associative.
    pub sum_assoc : sum (sum p q) r ≡ sum p (sum q r)
    sum_assoc = λ i. record { u = same_u i; v = same_v i }
