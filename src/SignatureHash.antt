-- ===== src/SignatureHash.antt =====
-- crates/ed301-eddsa/src/signature_hash.rs: the three uses of SHAKE256, and the scalar of a hash.
pub mod Concat
pub mod Oracle
use ed301_eddsa.Base.{List, [], ◌∷◌}
use ed301_eddsa.Base.Bytes.{Bytes}
use ed301_eddsa.Parameters.{hash_bytes}
use ed301_eddsa.Secret.{Secret, secret}
use ed301_eddsa.Libraries.Bigint.{Bigint}
use ed301_eddsa.Libraries.Xof.{Xof}
use ed301_eddsa.Scalar
use ed301_eddsa.Scalar.{Scalar}

module _ ⦃xof : Xof⦄ where
  -- The loop of `hash_parts`.
  unfoldable pub absorb_parts : xof.State → List Bytes → xof.State
  absorb_parts state [] = state
  absorb_parts state (part ∷ parts) = absorb_parts (xof.update state part) parts

  unfoldable pub hash_parts : List Bytes → Secret Bytes
  hash_parts parts =
      let state = absorb_parts xof.default_state parts in
      secret (xof.finalize_read state hash_bytes)

  unfoldable pub expand_seed : Bytes → Secret Bytes
  expand_seed seed = hash_parts (seed ∷ [])

  unfoldable pub nonce_hash : Bytes → Bytes → Secret Bytes
  nonce_hash prefix message = hash_parts (prefix ∷ message ∷ [])

  unfoldable pub challenge_hash : Bytes → Bytes → Bytes → Secret Bytes
  challenge_hash commitment public_key message = hash_parts (commitment ∷ public_key ∷ message ∷ [])

module _ ⦃b : Bigint⦄ where
  unfoldable pub hash_to_scalar : Secret Bytes → Secret Scalar
  hash_to_scalar hash = Scalar.reduce_hash_le hash
