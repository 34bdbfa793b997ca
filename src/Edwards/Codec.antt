-- ===== src/Edwards/Codec.antt =====
-- edwards.rs: `decode` against `encode`.
use ed301_eddsa.Base.{ℕ, ◌-◌, ◌*◌, ◌^◌, ◌<◌, arith}
use ed301_eddsa.Base.{◌≡◌, sym, ap, ap₂, ◌∙◌, Bool, true, false, not}
use ed301_eddsa.Base.{Option, some, ◌>>=◌, get_or, set, length, length-set}
use ed301_eddsa.Base.{bit_and, bit_or, if◌then◌else◌}
use ed301_eddsa.Base.Bytes.{Bytes, IsArray}
use ed301_eddsa.Base.Arrays.{get_or-set, set-set_self, set-IsBytes, get_or-lt}
use ed301_eddsa.Base.Bits.{bit_and_0x1f}
use ed301_eddsa.Parameters.{field_bytes}
use ed301_eddsa.Libraries.Bigint.{Bigint}
use ed301_eddsa.Ring.Laws.{mul-one}
use ed301_eddsa.Field
use ed301_eddsa.Field.{FieldElement}
use ed301_eddsa.Field.Arith.{field_ring}
use ed301_eddsa.Field.Codec.{to_canonical_bytes-from}
use ed301_eddsa.Edwards.{
  EdwardsPoint, ct_eq, is_valid, to_u8, refuse_if, encode, encode_inner, encode_public_artifact,
  decode,
}
use ed301_eddsa.Edwards.Group.{ct_eq_iff}
use ed301_eddsa.Edwards.OnCurve.{IsOnCurve}
use ed301_eddsa.Edwards.Decoded.{
  last_byte, last_of, IsDecoded, decode-IsDecoded, one-inverse, decoded_z, IsDecoded-IsOnCurve,
  decoded_y, decoded_sign,
}

module _ ⦃b : Bigint⦄ where
  -- The bytes of an affine point.
  compressed : FieldElement → FieldElement → Bytes
  compressed x y =
      let encoded = Field.to_canonical_bytes y in
      set encoded (field_bytes - 1)
        (bit_or (get_or encoded (field_bytes - 1) 0) (to_u8 (Field.is_odd x) * 2 ^ 7))

  encode_inner-compressed :
      (p : EdwardsPoint) (flag : Bool)
      → is_valid p ≡ true
      → p.z ≡ Field.one_element
      → encode_inner p flag ≡ some (compressed p.x p.y)
  unfolding encode_inner compressed
  encode_inner-compressed p flag h e =
      ap (λ c. refuse_if (not c) (Field.invert p.z >>= from_inverse)) (checked flag)
      ∙ ap (λ z. Field.invert z >>= from_inverse) e
      ∙ ap (λ m. m >>= from_inverse) one-inverse
      ∙ ap₂ (λ x y. some (compressed x y)) (mul-one p.x) (mul-one p.y)
    where
      from_inverse : FieldElement → Option Bytes
      from_inverse w = some (compressed (Field.mul p.x w) (Field.mul p.y w))

      checked : (c : Bool) → (if c then is_valid p else is_valid p) ≡ true
      checked true = h
      checked false = h

  compressed-set :
      (x y : FieldElement) (bs : Bytes) (v : ℕ)
      → field_bytes - 1 < length bs
      → Field.to_canonical_bytes y ≡ set bs (field_bytes - 1) v
      → bit_or v (to_u8 (Field.is_odd x) * 2 ^ 7) ≡ get_or bs (field_bytes - 1) 0
      → compressed x y ≡ bs
  unfolding compressed
  compressed-set x y bs v inside e k =
      ap
        (λ t.
          set t (field_bytes - 1)
            (bit_or (get_or t (field_bytes - 1) 0) (to_u8 (Field.is_odd x) * 2 ^ 7)))
        e
      ∙ ap
          (λ t.
            set (set bs (field_bytes - 1) v) (field_bytes - 1)
              (bit_or t (to_u8 (Field.is_odd x) * 2 ^ 7)))
          (get_or-set bs (field_bytes - 1) v inside)
      ∙ ap (set (set bs (field_bytes - 1) v) (field_bytes - 1)) k
      ∙ set-set_self bs (field_bytes - 1) v

  IsDecoded-compressed :
      {bs : Bytes} {p : EdwardsPoint}
      → IsArray field_bytes bs
      → IsDecoded bs p
      → compressed p.x p.y ≡ bs
  IsDecoded-compressed {bs} {p} (n, h) d =
      compressed-set p.x p.y bs (bit_and last 0x1f) (omega arith)
        (ap Field.to_canonical_bytes (decoded_y d)
          ∙ (to_canonical_bytes-from _
                (length-set bs (field_bytes - 1) _ ∙ n, set-IsBytes bs _ _ masked h)).0
              d.y d.y_decodes)
        (ap (λ s. bit_or (bit_and last 0x1f) (to_u8 s * 2 ^ 7)) (decoded_sign d)
          ∙ last_byte last below d.unreserved)
    where
      last : ℕ
      last = last_of bs

      below : last < 256
      below = get_or-lt bs (field_bytes - 1) h

      masked : bit_and last 0x1f < 256
      masked = omega (arith, bit_and_0x1f last below)

  -- A string of 38 bytes that decodes to a point is the encoding of that point, by either encoder,
  -- and the point is on the curve.
  pub encode-decode :
      (bs : Bytes) (p : EdwardsPoint)
      → IsArray field_bytes bs
      → decode bs ≡ some p
      → (encode p ≡ some bs) × (encode_public_artifact p ≡ some bs) × IsOnCurve p
  unfolding encode encode_public_artifact
  encode-decode bs p h e =
      let d = decode-IsDecoded bs p e in
      let same = ap some (IsDecoded-compressed h d) in
      (
        encode_inner-compressed p false d.valid (decoded_z d) ∙ same,
        encode_inner-compressed p true d.valid (decoded_z d) ∙ same,
        IsDecoded-IsOnCurve d,
      )

  -- Two strings of 38 bytes that decode to points which compare as equal are the same string.
  pub decode_injective :
      (bs cs : Bytes) (p q : EdwardsPoint)
      → IsArray field_bytes bs
      → IsArray field_bytes cs
      → decode bs ≡ some p
      → decode cs ≡ some q
      → ct_eq p q ≡ true
      → bs ≡ cs
  decode_injective bs cs p q h k d e same =
      let dp = decode-IsDecoded bs p d in
      let dq = decode-IsDecoded cs q e in
      let (ex, ey) = (ct_eq_iff p q).0 same in
      sym (IsDecoded-compressed h dp)
      ∙ ap₂ compressed (affine_eq p.x q.x p.z q.z (decoded_z dp) (decoded_z dq) ex)
          (affine_eq p.y q.y p.z q.z (decoded_z dp) (decoded_z dq) ey)
      ∙ IsDecoded-compressed k dq
    where
      affine_eq :
          (x x' z z' : FieldElement)
          → z ≡ Field.one_element
          → z' ≡ Field.one_element
          → Field.mul x z' ≡ Field.mul x' z
          → x ≡ x'
      affine_eq x x' z z' ez ez' e =
          sym (mul-one x) ∙ ap (Field.mul x) (sym ez') ∙ e ∙ ap (Field.mul x') ez ∙ mul-one x'
