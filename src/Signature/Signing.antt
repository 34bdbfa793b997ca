-- ===== src/Signature/Signing.antt =====
-- signature.rs: `SigningKey` and `sign_expanded`.
pub mod Formula
pub mod Total
use ed301_eddsa.Base.{not, replicate}
use ed301_eddsa.Base.Bytes.{Bytes}
use ed301_eddsa.Base.Copies.{copy_into}
use ed301_eddsa.Base.Results.{Result, ok, ◌>>=◌, ok_or, map_err, fail_if, to_array}
use ed301_eddsa.Parameters.{field_bytes, seed_bytes, signature_bytes}
use ed301_eddsa.Secret.{Secret, secret, declassify}
use ed301_eddsa.Libraries.Bigint.{Bigint}
use ed301_eddsa.Libraries.Xof.{Xof}
use ed301_eddsa.Scalar
use ed301_eddsa.Scalar.{Scalar}
use ed301_eddsa.Edwards
use ed301_eddsa.SignatureHash.{nonce_hash, challenge_hash, hash_to_scalar}
use ed301_eddsa.Signature.Error.{SignatureError, invalid_seed_length, internal_failure}
use ed301_eddsa.Signature.Wire.{Signature}
use ed301_eddsa.Signature.Wire
use ed301_eddsa.Signature.VerifyingKey.{VerifyingKey}
use ed301_eddsa.Signature.VerifyingKey
use ed301_eddsa.Signature.Expanded.{ExpandedSecret, derive}

-- The closure `|_| SignatureError::InternalFailure`.
abbrev pub as_internal : SignatureError → SignatureError
as_internal e = internal_failure

-- `encoded` in `sign_expanded`, from the commitment and the response.
module _ ⦃b : Bigint⦄ where
  unfoldable pub assemble : Bytes → Scalar → Secret Bytes
  assemble commitment response =
      let encoded = secret (replicate signature_bytes 0) in
      let encoded = copy_into 0 commitment encoded in
      let response_bytes =
        Scalar.write_canonical_bytes response (secret (replicate field_bytes 0)) in
      copy_into field_bytes response_bytes encoded

module _ ⦃b : Bigint⦄ ⦃xof : Xof⦄ where
  -- The end of `sign_expanded`: the checks of the signature before it leaves.
  unfoldable pub self_check : ExpandedSecret → Bytes → Bytes → Result SignatureError Signature
  self_check expanded message encoded =
      map_err as_internal (Wire.from_bytes encoded) >>= λ signature.
      let serialized_commitment_is_subgroup =
        declassify (Edwards.is_prime_subgroup signature.commitment) in
      fail_if (not serialized_commitment_is_subgroup) internal_failure (
        map_err as_internal (VerifyingKey.from_bytes expanded.public_key) >>= λ verifying_key.
        fail_if (not (VerifyingKey.verify verifying_key message signature)) internal_failure
          (ok signature))

  unfoldable pub sign_expanded : ExpandedSecret → Bytes → Result SignatureError Signature
  sign_expanded expanded message =
      let nonce_digest = nonce_hash expanded.prefix message in
      let nonce = hash_to_scalar nonce_digest in
      let commitment_point = Edwards.scalar_mul Edwards.basepoint nonce in
      let commitment_is_subgroup = declassify (Edwards.is_prime_subgroup commitment_point) in
      fail_if (not commitment_is_subgroup) internal_failure (
        ok_or (Edwards.encode_public_artifact commitment_point) internal_failure >>= λ commitment.
        let commitment = declassify commitment in
        let challenge_digest = challenge_hash commitment expanded.public_key message in
        let challenge = hash_to_scalar challenge_digest in
        let secret_response_term = Scalar.mul challenge expanded.reduced_scalar in
        let response = Scalar.add nonce secret_response_term in
        self_check expanded message (declassify (assemble commitment response)))

pub record SigningKey : Type 0 where
  pub seed : Secret Bytes

unfoldable pub from_seed : Bytes → Result SignatureError SigningKey
from_seed seed = ok_or (to_array seed_bytes seed) invalid_seed_length >>= λ seed.
    ok (record { seed = secret seed })

module _ ⦃b : Bigint⦄ ⦃xof : Xof⦄ where
  unfoldable pub verifying_key : SigningKey → Result SignatureError VerifyingKey
  verifying_key self = derive self.seed >>= λ expanded.
      map_err as_internal (VerifyingKey.from_bytes expanded.public_key)

  unfoldable pub sign : SigningKey → Bytes → Result SignatureError Signature
  sign self message = derive self.seed >>= λ expanded. sign_expanded expanded message
