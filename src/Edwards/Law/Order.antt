-- ===== src/Edwards/Law/Order.antt =====
-- edwards.rs: the base point has the prime order L in the affine group.
use ed301_eddsa.Base.{arith, ◌≡◌, refl, sym, ap, ◌∙◌, [], ◌∷◌}
use ed301_eddsa.Base.Words.{words_value}
use ed301_eddsa.Parameters.{scalar_modulus}
use ed301_eddsa.Ring.{◌⊗◌}
use ed301_eddsa.Ring.Laws.{zero-mul}
use ed301_eddsa.Ring.Terms.{var, one_term, ◌:*◌}
use ed301_eddsa.Ring.Solver.{solve}
use ed301_eddsa.Libraries.Bigint.{Bigint}
use ed301_eddsa.Libraries.Montgomery.Residues.{zero-new}
use ed301_eddsa.Field
use ed301_eddsa.Field.{FieldElement}
use ed301_eddsa.Field.Arith.{field_ring}
use ed301_eddsa.Edwards.{EdwardsPoint, basepoint}
use ed301_eddsa.Edwards.Affine.{Affine}
use ed301_eddsa.Edwards.Multiples.{multiple}
use ed301_eddsa.Edwards.Complete.Generator.{
  x_words, y_words, t_words, from_words_eq, one_element-new, basepoint-IsValid,
}
use ed301_eddsa.Edwards.Law.{OnAffine, neutral}
use ed301_eddsa.Edwards.Law.Times.{times}
use ed301_eddsa.Edwards.Law.Refined.{Stands, Stands-OnAffine, affine, valid-Stands, multiple-Stands}
use ed301_eddsa.Edwards.Law.Computed.{Coordinates, multiplied, lift, multiple-lift}

-- The coordinates of the base point.
abbrev base_coordinates : Coordinates
base_coordinates = record {
  x = words_value x_words;
  y = words_value y_words;
  z = 1;
  t = words_value t_words;
}

-- L times the base point has X = 0 and Y = Z.
order_computed :
    ((multiplied 301 base_coordinates scalar_modulus).x ≡ 0)
    × ((multiplied 301 base_coordinates scalar_modulus).y
        ≡ (multiplied 301 base_coordinates scalar_modulus).z)
unfolding multiplied
order_computed = (refl, refl)

module _ ⦃b : Bigint⦄ where
  -- The affine base point.
  pub base : Affine
  base = affine basepoint

  pub basepoint-Stands : Stands basepoint base
  unfolding base
  basepoint-Stands = valid-Stands basepoint-IsValid

  pub base-OnAffine : OnAffine base
  base-OnAffine = Stands-OnAffine basepoint-Stands

  basepoint-lift : basepoint ≡ lift base_coordinates
  unfolding basepoint
  basepoint-lift = λ i. record {
    x = from_words_eq x_words refl (omega arith) i;
    y = from_words_eq y_words refl (omega arith) i;
    z = one_element-new i;
    t = from_words_eq t_words refl (omega arith) i;
  }

  -- A point with X = 0 and Y = Z stands for the neutral element.
  pub Stands-neutral :
      {p : EdwardsPoint} {a : Affine}
      → Stands p a
      → p.x ≡ Field.zero_element
      → p.y ≡ p.z
      → a ≡ neutral
  unfolding neutral
  Stands-neutral {p} {a} h ex ey = λ i. record { u = same_u i; v = same_v i }
    where
      divide : (w x : FieldElement) → x ≡ w ⊗ p.z → x ⊗ h.represents.z_inverse ≡ w
      divide w x e =
          ap (λ t. t ⊗ h.represents.z_inverse) e
          ∙ solve (w ∷ p.z ∷ h.represents.z_inverse ∷ []) (var 0 :* var 1 :* var 2)
              (var 0 :* (var 1 :* var 2)) refl
          ∙ ap (◌⊗◌ w) h.represents.unit
          ∙ solve (w ∷ []) (var 0 :* one_term) (var 0) refl

      same_u : a.u ≡ field_ring.zero_elem
      same_u =
          sym (divide a.u p.x h.represents.x_coordinate)
          ∙ ap (λ t. t ⊗ h.represents.z_inverse) ex
          ∙ zero-mul _

      same_v : a.v ≡ field_ring.one_elem
      same_v =
          sym (divide a.v p.y h.represents.y_coordinate)
          ∙ ap (λ t. t ⊗ h.represents.z_inverse) ey
          ∙ h.represents.unit

  -- L times the base point is the neutral element.
  pub order_lem : times scalar_modulus base ≡ neutral
  order_lem =
      Stands-neutral (multiple-Stands 301 scalar_modulus basepoint-Stands (omega arith))
        (ap (λ q. q.x) lifted
          ∙ ap b.field_form.new order_computed.0
          ∙ unfold Field.zero_element in sym (zero-new b.field_form.base))
        (ap (λ q. q.y) lifted ∙ ap b.field_form.new order_computed.1 ∙ sym (ap (λ q. q.z) lifted))
    where
      lifted :
          multiple 301 basepoint scalar_modulus
          ≡ lift (multiplied 301 base_coordinates scalar_modulus)
      lifted =
          ap (λ q. multiple 301 q scalar_modulus) basepoint-lift
          ∙ multiple-lift 301 base_coordinates scalar_modulus
