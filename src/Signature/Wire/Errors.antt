-- ===== src/Signature/Wire/Errors.antt =====
-- signature.rs: the error that `Signature::from_bytes` gives.
use ed301_eddsa.Base.{◌≡◌, take, drop}
use ed301_eddsa.Base.Bytes.{Bytes}
use ed301_eddsa.Base.Results.{err, to_array, fails_with, ok-not_err}
use ed301_eddsa.Parameters.{field_bytes, signature_bytes}
use ed301_eddsa.Scalar
use ed301_eddsa.Edwards
use ed301_eddsa.Libraries.Bigint.{Bigint}
use ed301_eddsa.Signature.Error.{SignatureError, invalid_signature}
use ed301_eddsa.Signature.Wire.{from_bytes}

module _ ⦃b : Bigint⦄ where
  -- The only error of parsing a signature is that the signature is invalid.
  pub parse_error :
      (bytes : Bytes) {e : SignatureError} → from_bytes bytes ≡ err e → e ≡ invalid_signature
  unfolding from_bytes
  parse_error bytes {e} h = fails_with (to_array signature_bytes bytes) h λ encoded h.
      fails_with (to_array field_bytes (take field_bytes encoded)) h λ commitment_encoding h.
        fails_with (to_array field_bytes (drop field_bytes encoded)) h λ response_encoding h.
          fails_with (Edwards.decode commitment_encoding) h λ commitment h.
            fails_with (Scalar.from_canonical_bytes response_encoding) h λ response h. ok-not_err h
