-- ===== src/SignatureHash/Concat.antt =====
-- signature_hash.rs: the hashed parts as one string.
use ed301_eddsa.Base.{◌≡◌, sym, ◌∙◌, ap, List, [], ◌∷◌, ◌++◌}
use ed301_eddsa.Base.Bytes.{Bytes, IsArray}
use ed301_eddsa.Parameters.{hash_bytes}
use ed301_eddsa.Libraries.Xof.{Xof}
use ed301_eddsa.SignatureHash.{absorb_parts, hash_parts}

abbrev pub concat : List Bytes → Bytes
concat [] = []
concat (part ∷ parts) = part ++ concat parts

module _ ⦃xof : Xof⦄ where
  -- SHAKE256 of one message, 76 bytes of output.
  abbrev pub shake : Bytes → Bytes
  shake message = xof.finalize_read (xof.update xof.default_state message) hash_bytes

  absorb_parts_lem :
      (s : xof.State) (parts : List Bytes) → absorb_parts s parts ≡ xof.update s (concat parts)
  unfolding absorb_parts
  absorb_parts_lem s [] = sym (xof.update_nothing s)
  absorb_parts_lem s (part ∷ parts) =
      absorb_parts_lem (xof.update s part) parts ∙ xof.update-append s part (concat parts)

  -- Hashing a list of parts is hashing their concatenation.
  pub hash_parts_lem : (parts : List Bytes) → hash_parts parts ≡ shake (concat parts)
  unfolding hash_parts
  hash_parts_lem parts =
      ap (λ s. xof.finalize_read s hash_bytes) (absorb_parts_lem xof.default_state parts)

  pub hash_parts-IsArray : (parts : List Bytes) → IsArray 76 (hash_parts parts)
  unfolding hash_parts
  hash_parts-IsArray parts = xof.finalize_read-IsArray (absorb_parts xof.default_state parts) 76
