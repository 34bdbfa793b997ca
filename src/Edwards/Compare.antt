-- ===== src/Edwards/Compare.antt =====
-- edwards.rs: `ct_eq` and `encode` on the affine points that extended coordinates stand for.
use ed301_eddsa.Base.{◌≡◌, ◌↔◌, refl, sym, ap, ap₂, ◌∙◌, true, not, [], ◌∷◌, some, ◌>>=◌}
use ed301_eddsa.Base.{ℕ, ◌+◌, ◌*◌, ◌%◌, ◌^◌, ◌<◌, ◌==◌, arith, set, get_or, bit_or, length-set}
use ed301_eddsa.Base.Bytes.{
  Bytes, IsBytes, le_value, le_bytes, le_bytes-le_value, le_value-le_bytes, length-le_bytes,
  le_bytes-IsBytes,
}
use ed301_eddsa.Base.Arrays.{get_or-set, set-IsBytes, get_or-lt, value-last, take-set}
use ed301_eddsa.Base.Bits.{bit_or_sign}
use ed301_eddsa.Parameters.{field_bytes}
use ed301_eddsa.Field.Codec.{to_canonical_bytes_lem}
use ed301_eddsa.Field.Parity.{is_odd_lem}
use ed301_eddsa.Ring.{◌⊗◌}
use ed301_eddsa.Ring.Terms.{var, one_term, ◌:*◌}
use ed301_eddsa.Ring.Solver.{solve}
use ed301_eddsa.Libraries.Bigint.{Bigint}
use ed301_eddsa.Field
use ed301_eddsa.Field.{FieldElement}
use ed301_eddsa.Field.Arith.{field_ring, invert_iff}
use ed301_eddsa.Edwards.{EdwardsPoint, ct_eq, is_valid, encode, encode_inner, refuse_if, to_u8}
use ed301_eddsa.Edwards.Group.{ct_eq_iff}
use ed301_eddsa.Edwards.Affine.{Affine, Represents}
use ed301_eddsa.Edwards.Encoded.{written}

to_u8_lem : (n : ℕ) → to_u8 (n % 2 == 1) ≡ n % 2
to_u8_lem n = ground arith

-- The sign bit over the 38 bytes of a number below 2^301.
signed_bytes :
    (r s : ℕ)
    → r < 2 ^ 301
    → s < 2
    → set (le_bytes 38 r) 37 (bit_or (get_or (le_bytes 38 r) 37 0) (s * 2 ^ 7))
      ≡ le_bytes 38 (r + 2 ^ 303 * s)
signed_bytes r s h k =
    ap (λ t. set bs 37 t) (bit_or_sign last below s k small)
    ∙ sym (le_bytes-le_value signed (set-IsBytes bs 37 _ (omega (arith, small)) array))
    ∙ ap₂ le_bytes (length-set bs 37 (last + s * 128) ∙ length-le_bytes 38 r) (
        omega (
          arith,
          value-last 37 bs (length-le_bytes 38 r),
          value-last 37 signed (length-set bs 37 (last + s * 128) ∙ length-le_bytes 38 r),
          ap le_value (take-set 37 bs (last + s * 128)),
          get_or-set bs 37 (last + s * 128) (omega (arith, length-le_bytes 38 r)),
          le_value-le_bytes 38 r (omega arith),
        ))
  where
    bs : Bytes
    bs = le_bytes 38 r

    last : ℕ
    last = get_or bs 37 0

    signed : Bytes
    signed = set bs 37 (last + s * 128)

    array : IsBytes bs
    array = le_bytes-IsBytes 38 r

    below : last < 256
    below = get_or-lt bs 37 array

    small : last < 128
    small =
        omega (arith, value-last 37 bs (length-le_bytes 38 r), le_value-le_bytes 38 r (omega arith))

module _ ⦃b : Bigint⦄ where
  -- A factor with an inverse cancels.
  cancel : (x y z w : FieldElement) → z ⊗ w ≡ field_ring.one_elem → x ⊗ z ≡ y ⊗ z → x ≡ y
  cancel x y z w unit e = widen x ∙ ap (λ t. t ⊗ w) e ∙ sym (widen y)
    where
      widen : (x : FieldElement) → x ≡ x ⊗ z ⊗ w
      widen x =
          solve (x ∷ []) (var 0) (var 0 :* one_term) refl
          ∙ ap (◌⊗◌ x) (sym unit)
          ∙ solve (x ∷ z ∷ w ∷ []) (var 0 :* (var 1 :* var 2)) (var 0 :* var 1 :* var 2) refl

  -- Cross-multiplied coordinates are equal exactly if the affine ones are.
  cross_iff :
      (x y u v z z' w w' : FieldElement)
      → z ⊗ w ≡ field_ring.one_elem
      → z' ⊗ w' ≡ field_ring.one_elem
      → x ≡ u ⊗ z
      → y ≡ v ⊗ z'
      → (x ⊗ z' ≡ y ⊗ z) ↔ (u ≡ v)
  cross_iff x y u v z z' w w' unit unit' ex ey = (
    λ e. cancel u v z w unit (
        cancel (u ⊗ z) (v ⊗ z) z' w' unit' (
          ap (λ t. t ⊗ z') (sym ex)
          ∙ e
          ∙ ap (λ t. t ⊗ z) ey
          ∙ solve (v ∷ z ∷ z' ∷ []) (var 0 :* var 2 :* var 1) (var 0 :* var 1 :* var 2) refl)),
    λ e.
        ap (λ t. t ⊗ z') ex
        ∙ ap (λ t. t ⊗ z ⊗ z') e
        ∙ solve (v ∷ z ∷ z' ∷ []) (var 0 :* var 1 :* var 2) (var 0 :* var 2 :* var 1) refl
        ∙ ap (λ t. t ⊗ z) (sym ey),
  )

  -- Two points that stand for affine points compare as equal exactly if the affine points are
  -- equal.
  pub ct_eq-affine :
      {p q : EdwardsPoint} {a c : Affine}
      → Represents p a
      → Represents q c
      → (ct_eq p q ≡ true) ↔ ((a.u ≡ c.u) × (a.v ≡ c.v))
  ct_eq-affine {p} {q} {a} {c} h k = (
    λ e. let (ex, ey) = (ct_eq_iff p q).0 e in (in_x.0 ex, in_y.0 ey),
    λ (ex, ey). (ct_eq_iff p q).1 (in_x.1 ex, in_y.1 ey),
  )
    where
      in_x : (p.x ⊗ q.z ≡ q.x ⊗ p.z) ↔ (a.u ≡ c.u)
      in_x =
          cross_iff p.x q.x a.u c.u p.z q.z h.z_inverse k.z_inverse h.unit k.unit h.x_coordinate
            k.x_coordinate

      in_y : (p.y ⊗ q.z ≡ q.y ⊗ p.z) ↔ (a.v ≡ c.v)
      in_y =
          cross_iff p.y q.y a.v c.v p.z q.z h.z_inverse k.z_inverse h.unit k.unit h.y_coordinate
            k.y_coordinate

  divided : (x u z w : FieldElement) → z ⊗ w ≡ field_ring.one_elem → x ≡ u ⊗ z → Field.mul x w ≡ u
  divided x u z w unit e =
      ap (λ t. t ⊗ w) e
      ∙ solve (u ∷ z ∷ w ∷ []) (var 0 :* var 1 :* var 2) (var 0 :* (var 1 :* var 2)) refl
      ∙ ap (◌⊗◌ u) unit
      ∙ solve (u ∷ []) (var 0 :* one_term) (var 0) refl

  written_lem :
      (p : EdwardsPoint) (w u v : FieldElement)
      → Field.mul p.x w ≡ u
      → Field.mul p.y w ≡ v
      → written p w
        ≡ le_bytes field_bytes (b.field_form.retrieve v + 2 ^ 303 * (b.field_form.retrieve u % 2))
  written_lem p w u v ex ey =
      (λ i. set (Field.to_canonical_bytes (ey i)) 37 (
        bit_or (get_or (Field.to_canonical_bytes (ey i)) 37 0)
          (to_u8 (Field.is_odd (ex i)) * 2 ^ 7)))
      ∙ ap₂ (λ bs c. set bs 37 (bit_or (get_or bs 37 0) (to_u8 c * 2 ^ 7)))
          (to_canonical_bytes_lem v) (is_odd_lem u)
      ∙ ap (λ s. set (le_bytes 38 r) 37 (bit_or (get_or (le_bytes 38 r) 37 0) (s * 2 ^ 7)))
          (to_u8_lem (b.field_form.retrieve u))
      ∙ signed_bytes r (b.field_form.retrieve u % 2) (omega (arith, b.field_form.retrieve-lt v))
          (omega arith)
    where
      r : ℕ
      r = b.field_form.retrieve v

  -- A valid point that stands for an affine point (u, v) is encoded as the 38 little-endian bytes
  -- of the canonical value of v with the parity of u in bit 303, whatever its projective
  -- coordinates.
  pub encode-affine :
      {p : EdwardsPoint} {a : Affine}
      → is_valid p ≡ true
      → Represents p a
      → encode p
        ≡ some (
            le_bytes field_bytes
              (b.field_form.retrieve a.v + 2 ^ 303 * (b.field_form.retrieve a.u % 2)))
  unfolding encode encode_inner
  encode-affine {p} {a} valid h =
      ap (λ c. refuse_if (not c) (Field.invert p.z >>= λ w. some (written p w))) valid
      ∙ ap (λ m. m >>= λ w. some (written p w)) ((invert_iff p.z h.z_inverse).1 h.unit)
      ∙ ap some (
          written_lem p h.z_inverse a.u a.v (divided p.x a.u p.z h.z_inverse h.unit h.x_coordinate)
            (divided p.y a.v p.z h.z_inverse h.unit h.y_coordinate))
