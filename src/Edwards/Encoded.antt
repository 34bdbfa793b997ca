-- ===== src/Edwards/Encoded.antt =====
-- edwards.rs: the bytes that `encode_inner` writes.
use ed301_eddsa.Base.{ℕ, ◌*◌, ◌^◌, ◌<◌, Bool, true, false, not, ltb, ltb→lt, some}
use ed301_eddsa.Base.{
  ◌≡◌, refl, ◌∙◌, some_inj, >>=-eq-some, get_or, bit_or, set, if◌then◌else◌, length-set, ◌-◌,
}
use ed301_eddsa.Base.Bytes.{Bytes, IsArray}
use ed301_eddsa.Base.Arrays.{set-IsBytes, get_or-lt}
use ed301_eddsa.Base.Bits.{all_below, all_below_sound}
use ed301_eddsa.Parameters.{field_bytes}
use ed301_eddsa.Libraries.Bigint.{Bigint}
use ed301_eddsa.Field
use ed301_eddsa.Field.Codec.{to_canonical_bytes-IsArray}
use ed301_eddsa.Edwards.{
  EdwardsPoint, is_valid, to_u8, encode, encode_inner, encode_public_artifact,
}
use ed301_eddsa.Edwards.Decoded.{refuse_if-some}

with_sign-lt : (v : ℕ) (sign : Bool) → v < 256 → bit_or v (to_u8 sign * 2 ^ 7) < 256
unfolding all_below
with_sign-lt v true h = ltb→lt _ _ (all_below_sound 256 (λ v. ltb (bit_or v 128) 256) v refl h)
with_sign-lt v false h = ltb→lt _ _ (all_below_sound 256 (λ v. ltb (bit_or v 0) 256) v refl h)

moved : {xs ys : Bytes} → xs ≡ ys → IsArray field_bytes xs → IsArray field_bytes ys
moved e h = rw (← e) h

module _ ⦃b : Bigint⦄ where
  -- The bytes that the encoder writes, given the inverse of the denominator.
  abbrev pub written : EdwardsPoint → Field.FieldElement → Bytes
  written p inverse =
      let encoded = Field.to_canonical_bytes (Field.mul p.y inverse) in
      set encoded (field_bytes - 1) (
        bit_or (get_or encoded (field_bytes - 1) 0)
          (to_u8 (Field.is_odd (Field.mul p.x inverse)) * 2 ^ 7))

  encode_inner-IsArray :
      (p : EdwardsPoint) (flag : Bool) {bs : Bytes}
      → encode_inner p flag ≡ some bs
      → IsArray field_bytes bs
  unfolding encode_inner
  encode_inner-IsArray p flag {bs} h =
      let (valid, h1) = refuse_if-some (not (if flag then is_valid p else is_valid p)) _ h in
      let (inverse, e, h2) =
        >>=-eq-some (Field.invert p.z) (λ inverse. some (written p inverse)) h1 in
      let (n, k) = to_canonical_bytes-IsArray (Field.mul p.y inverse) in
      moved (some_inj h2) (
        length-set _ (field_bytes - 1) _ ∙ n,
        set-IsBytes _ (field_bytes - 1) _
            (with_sign-lt _ (Field.is_odd (Field.mul p.x inverse))
              (get_or-lt (Field.to_canonical_bytes (Field.mul p.y inverse)) (field_bytes - 1) k))
            k,
      )

  pub encode_public_artifact-IsArray :
      (p : EdwardsPoint) {bs : Bytes} → encode_public_artifact p ≡ some bs → IsArray field_bytes bs
  unfolding encode_public_artifact
  encode_public_artifact-IsArray p h = encode_inner-IsArray p true h

  -- The two encoders differ in what they declassify only.
  pub encode_eq_public : (p : EdwardsPoint) → encode p ≡ encode_public_artifact p
  unfolding encode encode_public_artifact encode_inner
  encode_eq_public p = refl
