-- ===== src/Edwards/Encoding.antt =====
-- edwards.rs: compressed points, encoding and strict decoding.
use ed301_eddsa.Base.{ℕ, ◌-◌, ◌*◌, ◌/◌, ◌^◌, ◌==◌, Bool, true, false, not, xor, ◌&&◌, if◌then◌else◌}
use ed301_eddsa.Base.{Option, none, some, ◌>>=◌, get_or, set, bit_and, bit_or}
use ed301_eddsa.Base.Bytes.{Bytes}
use ed301_eddsa.Parameters.{field_bytes}
use ed301_eddsa.Secret.{declassify}
use ed301_eddsa.Libraries.Bigint.{Bigint}
use ed301_eddsa.Field
use ed301_eddsa.Field.{FieldElement}
use ed301_eddsa.Edwards.Point.{EdwardsPoint, edwards_a, edwards_d, from_affine, is_valid}
use ed301_eddsa.Edwards.Multiply.{is_prime_subgroup_nonidentity}

-- `Choice::to_u8`.
abbrev pub to_u8 : Bool → ℕ
to_u8 false = 0
to_u8 true = 1

-- `if condition { return Err(EdwardsPointError); }` before the rest.
abbrev pub refuse_if {ℓ} : {A : Type ℓ} → Bool → Option A → Option A
refuse_if true rest = none
refuse_if false rest = rest

module _ ⦃b : Bigint⦄ where
  unfoldable pub encode_inner : EdwardsPoint → Bool → Option Bytes
  encode_inner self declassify_fault_predicates =
      let point_is_valid =
        if declassify_fault_predicates then declassify (is_valid self) else is_valid self in
      refuse_if (not point_is_valid) (
        Field.invert self.z >>= λ inverse.
        let affine_x = Field.mul self.x inverse in
        let affine_y = Field.mul self.y inverse in
        let encoded = Field.to_canonical_bytes affine_y in
        some (
          set encoded (field_bytes - 1)
            (bit_or (get_or encoded (field_bytes - 1) 0) (to_u8 (Field.is_odd affine_x) * 2 ^ 7))))

  unfoldable pub encode : EdwardsPoint → Option Bytes
  encode self = encode_inner self false

  unfoldable pub encode_public_artifact : EdwardsPoint → Option Bytes
  encode_public_artifact self = encode_inner self true

  unfoldable pub decode : Bytes → Option EdwardsPoint
  decode encoded =
      let last = get_or encoded (field_bytes - 1) 0 in
      refuse_if (not (bit_and last 0x60 == 0)) (
        let sign = bit_and (last / 2 ^ 7) 1 == 1 in
        let y_bytes = set encoded (field_bytes - 1) (bit_and last 0x1f) in
        Field.from_canonical_bytes y_bytes >>= λ y.
        let yy = Field.square y in
        let denominator = Field.sub edwards_a (Field.mul edwards_d yy) in
        Field.invert denominator >>= λ denominator_inverse.
        let x_squared = Field.mul (Field.sub Field.one_element yy) denominator_inverse in
        Field.sqrt x_squared >>= λ root. refuse_if (Field.is_zero root && sign) (
          let negate = xor (Field.is_odd root) sign in
          let x = Field.conditional_select root (Field.neg root) negate in
          let point = from_affine x y in refuse_if (not (is_valid point)) (some point)))

  unfoldable pub decode_strict_subgroup : Bytes → Option EdwardsPoint
  decode_strict_subgroup encoded =
      decode encoded >>= λ point. refuse_if (not (is_prime_subgroup_nonidentity point)) (some point)
