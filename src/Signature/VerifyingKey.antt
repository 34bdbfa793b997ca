-- ===== src/Signature/VerifyingKey.antt =====
-- signature.rs: `VerifyingKey`, and the verification equation.
pub mod Parse
pub mod Equation
pub mod Cofactorless
use ed301_eddsa.Base.{Bool}
use ed301_eddsa.Base.Bytes.{Bytes}
use ed301_eddsa.Base.Results.{Result, ok, ◌>>=◌, ok_or, to_array}
use ed301_eddsa.Parameters.{public_key_bytes}
use ed301_eddsa.Libraries.Bigint.{Bigint}
use ed301_eddsa.Libraries.Xof.{Xof}
use ed301_eddsa.Edwards
use ed301_eddsa.Edwards.{EdwardsPoint}
use ed301_eddsa.SignatureHash.{challenge_hash, hash_to_scalar}
use ed301_eddsa.Signature.Error.{SignatureError, invalid_public_key}
use ed301_eddsa.Signature.Wire.{Signature}

module _ ⦃b : Bigint⦄ where
  pub record VerifyingKey : Type 0 where
    pub encoded : Bytes
    pub point : EdwardsPoint

  unfoldable pub from_bytes : Bytes → Result SignatureError VerifyingKey
  from_bytes bytes = ok_or (to_array public_key_bytes bytes) invalid_public_key >>= λ encoded.
      ok_or (Edwards.decode_strict_subgroup encoded) invalid_public_key >>= λ point.
      ok (record { encoded = encoded; point = point })

  unfoldable pub to_bytes : VerifyingKey → Bytes
  to_bytes self = self.encoded

module _ ⦃b : Bigint⦄ ⦃xof : Xof⦄ where
  unfoldable pub verify : VerifyingKey → Bytes → Signature → Bool
  verify self message signature =
      let digest = challenge_hash signature.commitment_encoding self.encoded message in
      let challenge = hash_to_scalar digest in
      let left =
        Edwards.multiply_by_cofactor (Edwards.scalar_mul Edwards.basepoint signature.response) in
      let right =
        Edwards.multiply_by_cofactor
          (Edwards.add signature.commitment (Edwards.scalar_mul self.point challenge)) in
      Edwards.ct_eq left right
