-- ===== src/Edwards/Recovered.antt =====
-- edwards.rs: `decode` of the encoding of a valid point.
use ed301_eddsa.Base.{
  ◌-◌, ◌==◌, ◌≡◌, ◌≢◌, refl, sym, ap, ap₂, ◌∙◌, inl, inr, true, false, xor, ◌&&◌, some, set,
  bit_and, [], ◌∷◌,
}
use ed301_eddsa.Base.Bytes.{Bytes}
use ed301_eddsa.Parameters.{field_bytes}
use ed301_eddsa.Ring.{◌⊕◌, ◌⊗◌, ◌⊖◌}
use ed301_eddsa.Ring.Terms.{var, zero_term, one_term, squared, ◌:+◌, ◌:-◌, ◌:*◌}
use ed301_eddsa.Ring.Solver.{solve}
use ed301_eddsa.Libraries.Bigint.{Bigint}
use ed301_eddsa.Field
use ed301_eddsa.Field.{FieldElement}
use ed301_eddsa.Field.Arith.{field_ring, invert_iff}
use ed301_eddsa.Field.Prime.{inverse_exists, mul-eq-zero, one_ne_zero}
use ed301_eddsa.Field.Roots.{sqrt_total}
use ed301_eddsa.Edwards.{
  EdwardsPoint, edwards_a, edwards_d, from_affine, is_valid, ct_eq, encode, encode_inner, decode,
}
use ed301_eddsa.Edwards.Decoded.{last_of, sign_of}
use ed301_eddsa.Edwards.Group.{ct_eq_iff}
use ed301_eddsa.Edwards.OnCurve.{IsOnCurve}
use ed301_eddsa.Edwards.Complete.Closed.{IsValid, is_valid_iff}
use ed301_eddsa.Edwards.Complete.{c, c-square, zero_of_square, c_ne_zero}
use ed301_eddsa.Edwards.RoundTrip.{packed, packed_parts, chosen_root}

module _ ⦃b : Bigint⦄ where
  decode-steps :
      (bs : Bytes) (y inverse root x : FieldElement)
      → bit_and (last_of bs) 0x60 == 0 ≡ true
      → Field.from_canonical_bytes (set bs (field_bytes - 1) (bit_and (last_of bs) 0x1f)) ≡ some y
      → Field.invert (Field.sub edwards_a (Field.mul edwards_d (Field.square y))) ≡ some inverse
      → Field.sqrt (Field.mul (Field.sub Field.one_element (Field.square y)) inverse) ≡ some root
      → (Field.is_zero root && sign_of (last_of bs)) ≡ false
      → Field.conditional_select root
          (Field.neg root)
          (xor (Field.is_odd root) (sign_of (last_of bs)))
        ≡ x
      → is_valid (from_affine x y) ≡ true
      → decode bs ≡ some (from_affine x y)
  unfolding decode
  decode-steps bs y inverse root x e1 e2 e3 e4 e5 e6 e7 = rw (e1, e2, e3, e4, e5, e6, e7) refl

  -- The denominator of the curve's equation in v is never zero.
  denominator_ne_zero :
      (v : FieldElement) → edwards_a ⊖ edwards_d ⊗ Field.square v ≢ field_ring.zero_elem
  denominator_ne_zero v h = c_ne_zero (
      square_zero c (
        c-square
        ∙ sym same
        ∙ ap (λ t. edwards_d ⊗ Field.square t) (zero_of_square v c (same ∙ sym c-square))
        ∙ solve (edwards_d ∷ []) (var 0 :* squared zero_term) zero_term refl))
    where
      same : edwards_d ⊗ Field.square v ≡ edwards_a
      same =
          solve (edwards_a ∷ edwards_d ∷ v ∷ []) (var 1 :* squared (var 2))
            (var 0 :- (var 0 :- var 1 :* squared (var 2))) refl
          ∙ ap (◌⊖◌ edwards_a) h
          ∙ solve (edwards_a ∷ []) (var 0 :- zero_term) (var 0) refl

      square_zero :
          (x : FieldElement) → Field.square x ≡ Field.zero_element → x ≡ Field.zero_element
      square_zero x e =
          elim (mul-eq-zero x x (solve (x ∷ []) (var 0 :* var 0) (squared (var 0)) refl ∙ e)) [
            | inl z ↦ z
            | inr z ↦ z
          ]

  -- The equation of the curve, solved for u^2.
  solved :
      (u v w : FieldElement)
      → IsOnCurve (from_affine u v)
      → (edwards_a ⊖ edwards_d ⊗ Field.square v) ⊗ w ≡ field_ring.one_elem
      → (field_ring.one_elem ⊖ Field.square v) ⊗ w ≡ Field.square u
  unfolding from_affine
  solved u v w h unit =
      ap (λ t. t ⊗ w)
        (solve (edwards_d ∷ u ∷ v ∷ []) (one_term :- squared (var 2))
            ((squared one_term :+ var 0 :* squared (var 1 :* var 2))
              :- squared (var 2)
              :- var 0 :* squared (var 1 :* var 2))
            refl
          ∙ ap (λ t. t ⊖ Field.square v ⊖ edwards_d ⊗ Field.square (u ⊗ v)) (sym h.curve)
          ∙ solve (edwards_a ∷ edwards_d ∷ u ∷ v ∷ [])
              ((var 0 :* squared (var 2) :+ squared (var 3))
                :- squared (var 3)
                :- var 1 :* squared (var 2 :* var 3))
              ((var 0 :- var 1 :* squared (var 3)) :* squared (var 2)) refl)
      ∙ solve ((edwards_a ⊖ edwards_d ⊗ Field.square v) ∷ u ∷ w ∷ [])
          (var 0 :* squared (var 1) :* var 2) (var 0 :* var 2 :* squared (var 1)) refl
      ∙ ap (λ t. t ⊗ Field.square u) unit
      ∙ solve (u ∷ []) (one_term :* squared (var 0)) (squared (var 0)) refl

  -- The bytes of an affine point of the curve decode to it.
  decode-packed :
      (u v : FieldElement)
      → IsOnCurve (from_affine u v)
      → is_valid (from_affine u v) ≡ true
      → decode (packed u v) ≡ some (from_affine u v)
  decode-packed u v h valid =
      let (w, unit) = inverse_exists _ (denominator_ne_zero v) in
      let (root, found, roots) = sqrt_total u in
      let (unreserved, value, sign) = packed_parts v u in
      let (allowed, chosen) = chosen_root u root roots in
      decode-steps (packed u v) v w root u unreserved value ((invert_iff _ w).1 unit)
        (ap Field.sqrt (solved u v w h unit) ∙ found)
        (ap (λ s. Field.is_zero root && s) sign ∙ allowed)
        (ap (λ s. Field.conditional_select root (Field.neg root) (xor (Field.is_odd root) s)) sign
          ∙ chosen)
        valid

  module _ (p : EdwardsPoint) (w : FieldElement) (h : IsOnCurve p)
      (unit : Field.mul p.z w ≡ Field.one_element) where
    u : FieldElement
    u = Field.mul p.x w

    v : FieldElement
    v = Field.mul p.y w

    affine-IsOnCurve : IsOnCurve (from_affine u v)
    unfolding from_affine u v
    affine-IsOnCurve = record {
      extended = solve (u ⊗ v ∷ []) (var 0) (one_term :* var 0) refl;
      curve =
          solve (edwards_a ∷ p.x ∷ p.y ∷ w ∷ [])
            (var 0 :* squared (var 1 :* var 3) :+ squared (var 2 :* var 3))
            (squared (var 3) :* (var 0 :* squared (var 1) :+ squared (var 2))) refl
          ∙ ap (◌⊗◌ (Field.square w)) h.curve
          ∙ solve (edwards_d ∷ p.z ∷ p.t ∷ w ∷ [])
              (squared (var 3) :* (squared (var 1) :+ var 0 :* squared (var 2)))
              (squared (var 1 :* var 3) :+ var 0 :* squared (one_term :* (var 2 :* var 3))) refl
          ∙ ap₂ (λ s t. Field.square s ⊕ edwards_d ⊗ Field.square (t ⊗ (p.t ⊗ w))) unit (sym unit)
          ∙ ap (λ t. Field.square field_ring.one_elem ⊕ edwards_d ⊗ Field.square t)
              (solve (p.z ∷ p.t ∷ w ∷ []) (var 0 :* var 2 :* (var 1 :* var 2))
                  (var 0 :* var 1 :* (var 2 :* var 2)) refl
                ∙ ap (λ t. t ⊗ (w ⊗ w)) (sym h.extended)
                ∙ solve (p.x ∷ p.y ∷ w ∷ []) (var 0 :* var 1 :* (var 2 :* var 2))
                    (var 0 :* var 2 :* (var 1 :* var 2)) refl);
    }

    affine-IsValid : IsValid (from_affine u v)
    unfolding from_affine
    affine-IsValid = record { on_curve = affine-IsOnCurve; nonzero = one_ne_zero }

    affine_same : ct_eq (from_affine u v) p ≡ true
    unfolding from_affine u v
    affine_same = (ct_eq_iff _ p).1 (scaled p.x, scaled p.y)
      where
        scaled : (x : FieldElement) → Field.mul (Field.mul x w) p.z ≡ Field.mul x Field.one_element
        scaled x =
            solve (x ∷ p.z ∷ w ∷ []) (var 0 :* var 2 :* var 1) (var 0 :* (var 1 :* var 2)) refl
            ∙ ap (◌⊗◌ x) unit

    encode_lem : is_valid p ≡ true → encode p ≡ some (packed u v)
    unfolding encode encode_inner packed u v
    encode_lem valid = rw (valid, (invert_iff p.z w).1 unit) refl

  -- A point that passes the validity test is encoded, and the bytes decode to a point that passes
  -- it and compares as equal.
  pub decode-encode :
      (p : EdwardsPoint)
      → is_valid p ≡ true
      → (bs : Bytes) × (q : EdwardsPoint) × (encode p ≡ some bs)
        × (decode bs ≡ some q)
        × (is_valid q ≡ true)
        × (ct_eq q p ≡ true)
  decode-encode p valid =
      let k = (is_valid_iff p).0 valid in
      let (w, unit) = inverse_exists p.z k.nonzero in
      (
        packed (u p w k.on_curve unit) (v p w k.on_curve unit),
        from_affine (u p w k.on_curve unit) (v p w k.on_curve unit),
        encode_lem p w k.on_curve unit valid,
        decode-packed _ _ (affine-IsOnCurve p w k.on_curve unit)
            ((is_valid_iff _).1 (affine-IsValid p w k.on_curve unit)),
        (is_valid_iff _).1 (affine-IsValid p w k.on_curve unit),
        affine_same p w k.on_curve unit,
      )
