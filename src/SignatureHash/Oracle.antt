-- ===== src/SignatureHash/Oracle.antt =====
-- signature_hash.rs: the hash in one update that the unit tests compare the transcripts with.
use ed301_eddsa.Base.{◌≡◌, ap, ◌∙◌, [], ◌∷◌, ◌++◌}
use ed301_eddsa.Base.Bytes.{Bytes}
use ed301_eddsa.Base.Copies.{append-nil_eq}
use ed301_eddsa.Parameters.{hash_bytes}
use ed301_eddsa.Libraries.Xof.{Xof}
use ed301_eddsa.SignatureHash.{expand_seed, nonce_hash, challenge_hash}
use ed301_eddsa.SignatureHash.Concat.{hash_parts_lem}

module _ ⦃xof : Xof⦄ where
  unfoldable pub single_update : Bytes → Bytes
  single_update input =
      let state = xof.update xof.default_state input in xof.finalize_read state hash_bytes

  -- The expansion of a seed, the hash of a nonce and the hash of a challenge are the hash of the
  -- concatenated parts in one update, for parts of any length.
  pub hashes-single_update :
      (seed prefix commitment public_key message : Bytes)
      → (expand_seed seed ≡ single_update seed)
        × (nonce_hash prefix message ≡ single_update (prefix ++ message))
        × (challenge_hash commitment public_key message
            ≡ single_update (commitment ++ (public_key ++ message)))
  unfolding expand_seed nonce_hash challenge_hash single_update
  hashes-single_update seed prefix commitment public_key message = (
    hash_parts_lem (seed ∷ []) ∙ ap single_update (append-nil_eq seed),
    hash_parts_lem (prefix ∷ message ∷ [])
        ∙ ap (λ t. single_update (prefix ++ t)) (append-nil_eq message),
    hash_parts_lem (commitment ∷ public_key ∷ message ∷ [])
        ∙ ap (λ t. single_update (commitment ++ (public_key ++ t))) (append-nil_eq message),
  )
