-- ===== src/Signature/Trace.antt =====
-- signature.rs, `test_support`: the signing path once more, with every value on the way kept.
pub mod Agreement
use ed301_eddsa.Base.{Option, some, ◌>>=◌, replicate}
use ed301_eddsa.Base.Bytes.{Bytes}
use ed301_eddsa.Base.Copies.{copy_into}
use ed301_eddsa.Parameters.{field_bytes, signature_bytes}
use ed301_eddsa.Libraries.Bigint.{Bigint}
use ed301_eddsa.Libraries.Xof.{Xof}
use ed301_eddsa.Scalar
use ed301_eddsa.Edwards
use ed301_eddsa.SignatureHash
use ed301_eddsa.Signature.Expanded.{prune, prefix_of}

pub record Trace : Type 0 where
  pub expanded_hash : Bytes
  pub pruned_scalar : Bytes
  pub prefix : Bytes
  pub public_key : Bytes
  pub nonce_hash : Bytes
  pub nonce_scalar : Bytes
  pub commitment : Bytes
  pub challenge_hash : Bytes
  pub challenge_scalar : Bytes
  pub response : Bytes
  pub signature : Bytes

module _ ⦃b : Bigint⦄ ⦃xof : Xof⦄ where
  -- A failed `expect` is none.
  unfoldable pub trace : Bytes → Bytes → Option Trace
  trace seed message =
      let expanded_hash = SignatureHash.expand_seed seed in
      let pruned_scalar = prune expanded_hash in
      let prefix = prefix_of expanded_hash in
      let reduced_secret = Scalar.reduce_pruned_le pruned_scalar in
      Edwards.encode (Edwards.scalar_mul_pruned Edwards.basepoint pruned_scalar) >>= λ public_key.
      let nonce_hash = SignatureHash.nonce_hash prefix message in
      let nonce = SignatureHash.hash_to_scalar nonce_hash in
      let nonce_scalar = Scalar.canonical_bytes nonce in
      Edwards.encode (Edwards.scalar_mul Edwards.basepoint nonce) >>= λ commitment.
      let challenge_hash = SignatureHash.challenge_hash commitment public_key message in
      let challenge = SignatureHash.hash_to_scalar challenge_hash in
      let challenge_scalar = Scalar.canonical_bytes challenge in
      let secret_response_term = Scalar.mul challenge reduced_secret in
      let response_scalar = Scalar.add nonce secret_response_term in
      let response = Scalar.canonical_bytes response_scalar in
      let signature = copy_into 0 commitment (replicate signature_bytes 0) in
      let signature = copy_into field_bytes response signature in
      some (record {
        expanded_hash = expanded_hash;
        pruned_scalar = pruned_scalar;
        prefix = prefix;
        public_key = public_key;
        nonce_hash = nonce_hash;
        nonce_scalar = nonce_scalar;
        commitment = commitment;
        challenge_hash = challenge_hash;
        challenge_scalar = challenge_scalar;
        response = response;
        signature = signature;
      })
