-- ===== src/Signature/VerifyingKey/Equation.antt =====
-- signature.rs: what verification checks, with the hashes and the scalars written out.
use ed301_eddsa.Base.{◌≡◌, ◌↔◌, sym, ap, ◌∙◌, true, List, [], ◌∷◌, ◌++◌, ◌%◌}
use ed301_eddsa.Base.Bytes.{Bytes, le_value}
use ed301_eddsa.Base.Copies.{append-nil_eq}
use ed301_eddsa.Parameters.{scalar_modulus}
use ed301_eddsa.Libraries.Bigint.{Bigint}
use ed301_eddsa.Libraries.Xof.{Xof}
use ed301_eddsa.Scalar.{Scalar}
use ed301_eddsa.Scalar.Reduce.{reduce_hash_le_lem}
use ed301_eddsa.Edwards
use ed301_eddsa.Edwards.{EdwardsPoint}
use ed301_eddsa.Edwards.Group.{SamePoint, ct_eq_iff}
use ed301_eddsa.SignatureHash.{hash_parts, nonce_hash, challenge_hash, hash_to_scalar}
use ed301_eddsa.SignatureHash.Concat.{shake, concat, hash_parts_lem, hash_parts-IsArray}
use ed301_eddsa.Signature.Wire.{Signature}
use ed301_eddsa.Signature.VerifyingKey.{VerifyingKey, verify}

module _ ⦃b : Bigint⦄ ⦃xof : Xof⦄ where
  -- SHAKE256 of one string as a scalar: the little-endian value of 76 bytes of output, modulo L.
  abbrev pub hashed : Bytes → Scalar
  hashed bytes = le_value (shake bytes) % scalar_modulus

  pub hash_to_scalar_lem :
      (parts : List Bytes) → hash_to_scalar (hash_parts parts) ≡ hashed (concat parts)
  unfolding hash_to_scalar
  hash_to_scalar_lem parts =
      reduce_hash_le_lem (hash_parts parts) (hash_parts-IsArray parts)
      ∙ ap (λ h. le_value h % scalar_modulus) (hash_parts_lem parts)

  pub nonce_lem :
      (prefix message : Bytes)
      → hash_to_scalar (nonce_hash prefix message) ≡ hashed (prefix ++ message)
  unfolding nonce_hash
  nonce_lem prefix message =
      hash_to_scalar_lem (prefix ∷ message ∷ [])
      ∙ ap (λ t. hashed (prefix ++ t)) (append-nil_eq message)

  pub challenge_lem :
      (commitment public_key message : Bytes)
      → hash_to_scalar (challenge_hash commitment public_key message)
        ≡ hashed (commitment ++ (public_key ++ message))
  unfolding challenge_hash
  challenge_lem commitment public_key message =
      hash_to_scalar_lem (commitment ∷ public_key ∷ message ∷ [])
      ∙ ap (λ t. hashed (commitment ++ (public_key ++ t))) (append-nil_eq message)

  -- The cofactored equation 4 [S] B = 4 (R + [k] A), between points in projective coordinates.
  abbrev pub Equation : VerifyingKey → Bytes → Signature → Type 0
  Equation key message signature =
      let challenge = hashed (signature.commitment_encoding ++ (key.encoded ++ message)) in
      SamePoint
        (Edwards.double (Edwards.double (Edwards.scalar_mul Edwards.basepoint signature.response)))
        (Edwards.double (
          Edwards.double
            (Edwards.add signature.commitment (Edwards.scalar_mul key.point challenge))))

  -- Verification under a parsed key accepts exactly if 4 [S] B = 4 (R + [k] A) in projective
  -- coordinates, with k the hash of R, A and the message modulo L.
  pub verify_iff :
      (key : VerifyingKey) (message : Bytes) (signature : Signature)
      → (verify key message signature ≡ true) ↔ Equation key message signature
  unfolding verify Edwards.multiply_by_cofactor
  verify_iff key message signature =
      (λ h. (ct_eq_iff _ _).0 (sym same ∙ h), λ h. same ∙ (ct_eq_iff _ _).1 h)
    where
      same :
          verify key message signature
          ≡ Edwards.ct_eq
              (Edwards.double
                (Edwards.double (Edwards.scalar_mul Edwards.basepoint signature.response)))
              (Edwards.double (
                Edwards.double (
                  Edwards.add signature.commitment (
                    Edwards.scalar_mul key.point
                      (hashed (signature.commitment_encoding ++ (key.encoded ++ message)))))))
      same =
          ap
            (λ k.
              Edwards.ct_eq
                (Edwards.double
                  (Edwards.double (Edwards.scalar_mul Edwards.basepoint signature.response)))
                (Edwards.double (
                  Edwards.double
                    (Edwards.add signature.commitment (Edwards.scalar_mul key.point k)))))
            (challenge_lem signature.commitment_encoding key.encoded message)
