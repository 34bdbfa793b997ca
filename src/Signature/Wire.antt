-- ===== src/Signature/Wire.antt =====
-- signature.rs: `Signature`, the parsed form of 76 bytes.
pub mod Parse
pub mod Errors
use ed301_eddsa.Base.{take, drop}
use ed301_eddsa.Base.Bytes.{Bytes}
use ed301_eddsa.Base.Results.{Result, ok, ◌>>=◌, ok_or, to_array}
use ed301_eddsa.Parameters.{field_bytes, signature_bytes}
use ed301_eddsa.Libraries.Bigint.{Bigint}
use ed301_eddsa.Scalar
use ed301_eddsa.Scalar.{Scalar}
use ed301_eddsa.Edwards
use ed301_eddsa.Edwards.{EdwardsPoint}
use ed301_eddsa.Signature.Error.{SignatureError, invalid_signature}

module _ ⦃b : Bigint⦄ where
  pub record Signature : Type 0 where
    pub encoded : Bytes
    pub commitment_encoding : Bytes
    pub commitment : EdwardsPoint
    pub response : Scalar

  unfoldable pub from_bytes : Bytes → Result SignatureError Signature
  from_bytes bytes = ok_or (to_array signature_bytes bytes) invalid_signature >>= λ encoded.
      ok_or (to_array field_bytes (take field_bytes encoded)) invalid_signature
      >>= λ commitment_encoding.
          ok_or (to_array field_bytes (drop field_bytes encoded)) invalid_signature
          >>= λ response_encoding.
              ok_or (Edwards.decode commitment_encoding) invalid_signature >>= λ commitment.
              ok_or (Scalar.from_canonical_bytes response_encoding) invalid_signature
              >>= λ response. ok (record {
                encoded = encoded;
                commitment_encoding = commitment_encoding;
                commitment = commitment;
                response = response;
              })

  unfoldable pub to_bytes : Signature → Bytes
  to_bytes self = self.encoded
