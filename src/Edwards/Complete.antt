-- ===== src/Edwards/Complete.antt =====
-- edwards.rs: the addition law is complete on the curve, since a is a square of the field and d is
-- not: the sum of two points with Z other than zero has such a Z too.
pub mod Closed
pub mod Generator
use ed301_eddsa.Base.{◌≡◌, ◌≢◌, refl, sym, ap, ap₂, ◌∙◌, ◌%◌, arith, inl, inr, [], ◌∷◌}
use ed301_eddsa.Parameters.{field_modulus}
use ed301_eddsa.Ring.{◌⊕◌, ◌⊗◌, ◌⊖◌}
use ed301_eddsa.Ring.Terms.{Term, var, zero_term, one_term, minus, squared, ◌:+◌, ◌:-◌, ◌:*◌}
use ed301_eddsa.Ring.Solver.{solve}
use ed301_eddsa.Libraries.Bigint.{Bigint}
use ed301_eddsa.Field
use ed301_eddsa.Field.{FieldElement}
use ed301_eddsa.Field.Arith.{field_ring, two-eq}
use ed301_eddsa.Field.Prime.{mul-eq-zero, mul-ne-zero, zero_or_not}
use ed301_eddsa.Field.Roots.{root_of_a, zero_of_d_square, two_ne_zero}
use ed301_eddsa.Edwards.{EdwardsPoint, edwards_a, edwards_d, add, double}
use ed301_eddsa.Edwards.OnCurve.{IsOnCurve}

module _ ⦃b : Bigint⦄ where
  -- The square root of a.
  pub c : FieldElement
  c = Field.from_u64 45677

  pub c-square : Field.square c ≡ edwards_a
  unfolding c edwards_a
  c-square = root_of_a

  pub zero_of_square :
      (t y : FieldElement) → edwards_d ⊗ Field.square t ≡ Field.square y → t ≡ Field.zero_element
  unfolding edwards_d
  zero_of_square = zero_of_d_square

  module _ {p q : EdwardsPoint} (h : IsOnCurve p) (k : IsOnCurve q) where
    -- Where d T1 T2 is Z1 Z2 up to sign, d is a square times the square of another element.
    square_lem :
        (s e : FieldElement)
        → Field.square s ≡ Field.one_element
        → Field.square e ≡ Field.one_element
        → edwards_d ⊗ p.t ⊗ q.t ≡ e ⊗ (p.z ⊗ q.z)
        → edwards_d ⊗ Field.square (p.t ⊗ (c ⊗ q.x ⊕ s ⊗ q.y))
          ≡ Field.square (q.z ⊗ (c ⊗ p.x ⊕ s ⊗ e ⊗ p.y))
    square_lem s e hs he cross =
        solve (edwards_d ∷ p.t ∷ c ∷ s ∷ q.x ∷ q.y ∷ [])
          (var 0 :* squared (var 1 :* (var 2 :* var 4 :+ var 3 :* var 5)))
          (var 0
            :* squared (var 1)
            :* ((squared (var 2) :* squared (var 4) :+ squared (var 3) :* squared (var 5))
                :+ twice (var 2 :* var 3 :* (var 4 :* var 5))))
          refl
        ∙ (λ i.
            edwards_d
            ⊗ Field.square p.t
            ⊗ ((c-square i ⊗ Field.square q.x ⊕ hs i ⊗ Field.square q.y)
                ⊕ (c ⊗ s ⊗ k.extended i ⊕ c ⊗ s ⊗ k.extended i)))
        ∙ solve (edwards_d ∷ p.t ∷ c ∷ s ∷ q.z ∷ q.t ∷ edwards_a ∷ q.x ∷ q.y ∷ [])
            (var 0
              :* squared (var 1)
              :* ((var 6 :* squared (var 7) :+ one_term :* squared (var 8))
                  :+ twice (var 2 :* var 3 :* (var 4 :* var 5))))
            (var 0
              :* squared (var 1)
              :* ((var 6 :* squared (var 7) :+ squared (var 8))
                  :+ twice (var 2 :* var 3 :* (var 4 :* var 5))))
            refl
        ∙ ap (λ w. edwards_d ⊗ Field.square p.t ⊗ (w ⊕ (c ⊗ s ⊗ (q.z ⊗ q.t) ⊕ c ⊗ s ⊗ (q.z ⊗ q.t))))
            k.curve
        ∙ solve (edwards_d ∷ p.t ∷ c ∷ s ∷ q.z ∷ q.t ∷ [])
            (var 0
              :* squared (var 1)
              :* ((squared (var 4) :+ var 0 :* squared (var 5))
                  :+ twice (var 2 :* var 3 :* (var 4 :* var 5))))
            (squared (var 4) :* (var 0 :* squared (var 1))
              :+ squared (var 0 :* var 1 :* var 5)
              :+ twice (var 2 :* var 3 :* var 1 :* var 4 :* (var 0 :* var 1 :* var 5)))
            refl
        ∙ ap
            (λ w.
              Field.square q.z ⊗ (edwards_d ⊗ Field.square p.t)
              ⊕ Field.square w
              ⊕ (c ⊗ s ⊗ p.t ⊗ q.z ⊗ w ⊕ c ⊗ s ⊗ p.t ⊗ q.z ⊗ w))
            cross
        ∙ solve (edwards_d ∷ p.t ∷ c ∷ s ∷ q.z ∷ e ∷ p.z ∷ [])
            (squared (var 4) :* (var 0 :* squared (var 1))
              :+ squared (var 5 :* (var 6 :* var 4))
              :+ twice (var 2 :* var 3 :* var 1 :* var 4 :* (var 5 :* (var 6 :* var 4))))
            (squared (var 4)
              :* ((squared (var 5) :* squared (var 6) :+ var 0 :* squared (var 1))
                  :+ twice (var 2 :* var 3 :* var 5 :* (var 6 :* var 1))))
            refl
        ∙ (λ i.
            Field.square q.z
            ⊗ ((he i ⊗ Field.square p.z ⊕ edwards_d ⊗ Field.square p.t)
                ⊕ (c ⊗ s ⊗ e ⊗ sym h.extended i ⊕ c ⊗ s ⊗ e ⊗ sym h.extended i)))
        ∙ solve (edwards_d ∷ p.t ∷ c ∷ s ∷ q.z ∷ e ∷ p.z ∷ p.x ∷ p.y ∷ [])
            (squared (var 4)
              :* ((one_term :* squared (var 6) :+ var 0 :* squared (var 1))
                  :+ twice (var 2 :* var 3 :* var 5 :* (var 7 :* var 8))))
            (squared (var 4)
              :* ((squared (var 6) :+ var 0 :* squared (var 1))
                  :+ twice (var 2 :* var 3 :* var 5 :* (var 7 :* var 8))))
            refl
        ∙ ap (λ w. Field.square q.z ⊗ (w ⊕ (c ⊗ s ⊗ e ⊗ (p.x ⊗ p.y) ⊕ c ⊗ s ⊗ e ⊗ (p.x ⊗ p.y))))
            (sym h.curve)
        ∙ solve (edwards_a ∷ c ∷ s ∷ q.z ∷ e ∷ p.x ∷ p.y ∷ [])
            (squared (var 3)
              :* ((var 0 :* squared (var 5) :+ squared (var 6))
                  :+ twice (var 1 :* var 2 :* var 4 :* (var 5 :* var 6))))
            (squared (var 3)
              :* ((var 0 :* squared (var 5) :+ one_term :* one_term :* squared (var 6))
                  :+ twice (var 1 :* var 2 :* var 4 :* (var 5 :* var 6))))
            refl
        ∙ (λ i.
            Field.square q.z
            ⊗ ((sym c-square i ⊗ Field.square p.x ⊕ sym hs i ⊗ sym he i ⊗ Field.square p.y)
                ⊕ (c ⊗ s ⊗ e ⊗ (p.x ⊗ p.y) ⊕ c ⊗ s ⊗ e ⊗ (p.x ⊗ p.y))))
        ∙ solve (c ∷ s ∷ q.z ∷ e ∷ p.x ∷ p.y ∷ [])
            (squared (var 2)
              :* ((squared (var 0) :* squared (var 4)
                    :+ squared (var 1) :* squared (var 3) :* squared (var 5))
                  :+ twice (var 0 :* var 1 :* var 3 :* (var 4 :* var 5))))
            (squared (var 2 :* (var 0 :* var 4 :+ var 1 :* var 3 :* var 5))) refl
      where
        twice : Term → Term
        twice t = t :+ t

  pub one-square : Field.square field_ring.one_elem ≡ field_ring.one_elem
  one-square = solve [] (squared one_term) one_term refl

  pub minus_one-square : Field.square (field_ring.neg field_ring.one_elem) ≡ field_ring.one_elem
  minus_one-square = solve [] (squared (minus one_term)) one_term refl

  -- x + y = 0 and x - y = 0 only for y = 0.
  zero_of_both :
      (x y : FieldElement)
      → x ⊕ field_ring.one_elem ⊗ y ≡ field_ring.zero_elem
      → x ⊕ field_ring.neg field_ring.one_elem ⊗ y ≡ field_ring.zero_elem
      → y ≡ field_ring.zero_elem
  zero_of_both x y plus less = elim (mul-eq-zero (Field.from_u64 2) y doubled) [
    | inl e ↦ absurd (two_ne_zero e)
    | inr e ↦ e
  ]
    where
      doubled : Field.mul (Field.from_u64 2) y ≡ field_ring.zero_elem
      doubled =
          ap (λ t. t ⊗ y) two-eq
          ∙ solve (x ∷ y ∷ []) ((one_term :+ one_term) :* var 1)
              ((var 0 :+ one_term :* var 1) :- (var 0 :+ minus one_term :* var 1)) refl
          ∙ ap₂ ◌⊖◌ plus less
          ∙ solve [] (zero_term :- zero_term) zero_term refl

  -- Both denominators of the addition law are other than zero.
  pub cross_never :
      {p q : EdwardsPoint} (e : FieldElement)
      → IsOnCurve p
      → IsOnCurve q
      → p.z ≢ Field.zero_element
      → q.z ≢ Field.zero_element
      → Field.square e ≡ Field.one_element
      → edwards_d ⊗ p.t ⊗ q.t ≢ e ⊗ (p.z ⊗ q.z)
  cross_never {p} {q} e h k hz kz he cross =
      elim (mul-eq-zero p.t _ (vanishes one_elem one-square)) [
        | inl first ↦ nonzero (
            sym cross
            ∙ ap (λ t. edwards_d ⊗ t ⊗ q.t) first
            ∙ solve (edwards_d ∷ q.t ∷ []) (var 0 :* zero_term :* var 1) zero_term refl)
        | inr plus ↦
            elim (mul-eq-zero p.t _ (vanishes (field_ring.neg one_elem) minus_one-square)) [
              | inl first ↦ nonzero (
                  sym cross
                  ∙ ap (λ t. edwards_d ⊗ t ⊗ q.t) first
                  ∙ solve (edwards_d ∷ q.t ∷ []) (var 0 :* zero_term :* var 1) zero_term refl)
              | inr less ↦
                  elim (mul-eq-zero q.z q.t (
                    sym k.extended
                    ∙ ap (◌⊗◌ q.x) (zero_of_both (c ⊗ q.x) q.y plus less)
                    ∙ solve (q.x ∷ []) (var 0 :* zero_term) zero_term refl)) [
                      | inl bad ↦ kz bad
                      | inr second ↦ nonzero (
                          sym cross
                          ∙ ap (λ t. edwards_d ⊗ p.t ⊗ t) second
                          ∙ solve (edwards_d ∷ p.t ∷ []) (var 0 :* var 1 :* zero_term) zero_term
                              refl)
                    ]
            ]
      ]
    where
      one_elem : FieldElement
      one_elem = field_ring.one_elem

      vanishes :
          (s : FieldElement)
          → Field.square s ≡ Field.one_element
          → p.t ⊗ (c ⊗ q.x ⊕ s ⊗ q.y) ≡ Field.zero_element
      vanishes s hs = zero_of_square _ _ (square_lem h k s e hs he cross)

      nonzero : e ⊗ (p.z ⊗ q.z) ≡ field_ring.zero_elem → ⊥
      nonzero z = mul-ne-zero p.z q.z hz kz (
          solve (p.z ⊗ q.z ∷ []) (var 0) (one_term :* var 0) refl
          ∙ ap (λ t. t ⊗ (p.z ⊗ q.z)) (sym he)
          ∙ solve (e ∷ p.z ⊗ q.z ∷ []) (squared (var 0) :* var 1) (var 0 :* (var 0 :* var 1)) refl
          ∙ ap (◌⊗◌ e) z
          ∙ solve (e ∷ []) (var 0 :* zero_term) zero_term refl)

  pub c_ne_zero : c ≢ Field.zero_element
  unfolding c Field.from_u64 Field.zero_element
  c_ne_zero h = refuted (
      sym (b.field_form.retrieve-new 45677)
      ∙ ap b.field_form.retrieve h
      ∙ b.field_form.retrieve-zero)
    where
      refuted : 45677 % field_modulus ≡ 0 % field_modulus → ⊥
      refuted e = omega (arith, e)
