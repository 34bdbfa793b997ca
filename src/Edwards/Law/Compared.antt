-- ===== src/Edwards/Law/Compared.antt =====
-- edwards.rs: the comparisons and tests of extended points, on the affine points they stand for.
use ed301_eddsa.Base.{arith, ◌≡◌, ◌↔◌, refl, sym, ap, ◌∙◌, true, [], ◌∷◌}
use ed301_eddsa.Parameters.{scalar_modulus}
use ed301_eddsa.Ring.{◌⊗◌}
use ed301_eddsa.Ring.Terms.{var, one_term, ◌:*◌}
use ed301_eddsa.Ring.Solver.{solve}
use ed301_eddsa.Ring.Laws.{zero-mul}
use ed301_eddsa.Libraries.Bigint.{Bigint}
use ed301_eddsa.Field.{FieldElement}
use ed301_eddsa.Field.Arith.{field_ring}
use ed301_eddsa.Edwards.{EdwardsPoint, ct_eq, is_identity, is_prime_subgroup}
use ed301_eddsa.Edwards.Affine.{Affine}
use ed301_eddsa.Edwards.Group.{ct_eq_iff, is_identity_iff}
use ed301_eddsa.Edwards.Bits.{is_prime_subgroup_lem}
use ed301_eddsa.Edwards.Law.{neutral}
use ed301_eddsa.Edwards.Law.Times.{times}
use ed301_eddsa.Edwards.Law.Refined.{Stands, scalar_mul-Stands}
use ed301_eddsa.Edwards.Law.Order.{Stands-neutral}

module _ ⦃b : Bigint⦄ where
  -- x = u z and x' = u' z' with x z' = x' z and z, z' invertible give u = u'.
  coordinate_eq :
      (x z w u x' z' w' u' : FieldElement)
      → z ⊗ w ≡ field_ring.one_elem
      → z' ⊗ w' ≡ field_ring.one_elem
      → x ≡ u ⊗ z
      → x' ≡ u' ⊗ z'
      → x ⊗ z' ≡ x' ⊗ z
      → u ≡ u'
  coordinate_eq x z w u x' z' w' u' unit unit' e e' same =
      spread u
      ∙ solve (u ∷ z ∷ w ∷ z' ∷ w' ∷ []) (var 0 :* (var 1 :* var 2) :* (var 3 :* var 4))
          (var 0 :* var 1 :* var 3 :* (var 2 :* var 4)) refl
      ∙ ap (λ t. t ⊗ z' ⊗ (w ⊗ w')) (sym e)
      ∙ ap (λ t. t ⊗ (w ⊗ w')) same
      ∙ ap (λ t. t ⊗ z ⊗ (w ⊗ w')) e'
      ∙ solve (u' ∷ z ∷ w ∷ z' ∷ w' ∷ []) (var 0 :* var 3 :* var 1 :* (var 2 :* var 4))
          (var 0 :* (var 1 :* var 2) :* (var 3 :* var 4)) refl
      ∙ sym (spread u')
    where
      spread : (v : FieldElement) → v ≡ v ⊗ (z ⊗ w) ⊗ (z' ⊗ w')
      spread v =
          solve (v ∷ []) (var 0) (var 0 :* one_term :* one_term) refl
          ∙ (λ i. v ⊗ sym unit i ⊗ sym unit' i)

  -- Two points compare as equal exactly if they stand for the same affine point.
  pub ct_eq-Stands :
      {p q : EdwardsPoint} {a c : Affine} → Stands p a → Stands q c → (ct_eq p q ≡ true) ↔ (a ≡ c)
  ct_eq-Stands {p} {q} {a} {c} h k = (
    λ e.
        let (first, second) = (ct_eq_iff p q).0 e in
        let us =
          coordinate_eq p.x p.z _ a.u q.x q.z _ c.u h.represents.unit k.represents.unit
            h.represents.x_coordinate k.represents.x_coordinate first in
        let vs =
          coordinate_eq p.y p.z _ a.v q.y q.z _ c.v h.represents.unit k.represents.unit
            h.represents.y_coordinate k.represents.y_coordinate second in
        λ i. record { u = us i; v = vs i },
    λ e. (ct_eq_iff p q).1 (
      crossed p.x q.x a.u c.u h.represents.x_coordinate k.represents.x_coordinate (ap (λ t. t.u) e),
      crossed p.y q.y a.v c.v h.represents.y_coordinate k.represents.y_coordinate (ap (λ t. t.v) e),
    ),
  )
    where
      crossed :
          (x x' u u' : FieldElement) → x ≡ u ⊗ p.z → x' ≡ u' ⊗ q.z → u ≡ u' → x ⊗ q.z ≡ x' ⊗ p.z
      crossed x x' u u' e e' same =
          ap (λ t. t ⊗ q.z) e
          ∙ solve (u ∷ p.z ∷ q.z ∷ []) (var 0 :* var 1 :* var 2) (var 0 :* var 2 :* var 1) refl
          ∙ ap (λ t. t ⊗ q.z ⊗ p.z) same
          ∙ ap (λ t. t ⊗ p.z) (sym e')

  -- The test of the identity is that of the neutral element.
  pub is_identity-Stands :
      {p : EdwardsPoint} {a : Affine} → Stands p a → (is_identity p ≡ true) ↔ (a ≡ neutral)
  unfolding neutral
  is_identity-Stands {p} {a} h = (
    λ e. let (first, second) = (is_identity_iff p).0 e in Stands-neutral h first second,
    λ e. (is_identity_iff p).1 (
      h.represents.x_coordinate ∙ ap (λ t. t.u ⊗ p.z) e ∙ zero-mul _,
      h.represents.y_coordinate
          ∙ ap (λ t. t.v ⊗ p.z) e
          ∙ solve (p.z ∷ []) (one_term :* var 0) (var 0) refl,
    ),
  )

  -- The test of the prime subgroup is that L times the affine point is neutral.
  pub is_prime_subgroup-Stands :
      {p : EdwardsPoint} {a : Affine}
      → Stands p a
      → (is_prime_subgroup p ≡ true) ↔ (times scalar_modulus a ≡ neutral)
  is_prime_subgroup-Stands {p} h =
      let k = is_identity-Stands (scalar_mul-Stands scalar_modulus h (omega arith)) in
      (λ e. k.0 (sym (is_prime_subgroup_lem p) ∙ e), λ e. is_prime_subgroup_lem p ∙ k.1 e)
