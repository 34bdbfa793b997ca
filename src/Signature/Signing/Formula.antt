-- ===== src/Signature/Signing/Formula.antt =====
-- signature.rs: what `sign_expanded` returns.
use native.Mathlib.Nat.{mod-lt}
use ed301_eddsa.Base.{
  ◌+◌, ◌-◌, ◌*◌, ◌%◌, ◌<◌, arith, ◌≡◌, refl, sym, ap, ap₂, ◌∙◌, true, not, not-eq-false,
}
use ed301_eddsa.Base.{some, some_inj, ◌++◌, length, replicate, take, drop, take-append, drop-append}
use ed301_eddsa.Base.Bytes.{Bytes, length-le_bytes, le_bytes}
use ed301_eddsa.Base.Copies.{copy_into, copy_into_zeros, copy_into_end}
use ed301_eddsa.Base.Results.{ok, ok_or, ok_inj, >>=-eq-ok, ok_or-ok, map_err-ok, fail_if-ok}
use ed301_eddsa.Parameters.{field_bytes, scalar_bytes, scalar_modulus, signature_bytes}
use ed301_eddsa.Libraries.Bigint.{Bigint}
use ed301_eddsa.Libraries.Xof.{Xof}
use ed301_eddsa.Scalar.{Scalar}
use ed301_eddsa.Scalar
use ed301_eddsa.Scalar.Arith.{response_lem}
use ed301_eddsa.Scalar.Codec.{from_canonical_bytes-write, write_canonical_bytes_lem}
use ed301_eddsa.Edwards
use ed301_eddsa.Edwards.{EdwardsPoint}
use ed301_eddsa.SignatureHash.{nonce_hash, challenge_hash, hash_to_scalar}
use ed301_eddsa.Edwards.Encoded.{encode_public_artifact-IsArray}
use ed301_eddsa.Signature.Error.{internal_failure}
use ed301_eddsa.Signature.Wire.{Signature}
use ed301_eddsa.Signature.Wire
use ed301_eddsa.Signature.Wire.Parse.{from_bytes-IsParsed}
use ed301_eddsa.Signature.VerifyingKey.{VerifyingKey}
use ed301_eddsa.Signature.VerifyingKey
use ed301_eddsa.Signature.VerifyingKey.Equation.{hashed, nonce_lem, challenge_lem}
use ed301_eddsa.Signature.Expanded.{ExpandedSecret}
use ed301_eddsa.Signature.Signing.{assemble, self_check, sign_expanded}

module _ ⦃b : Bigint⦄ where
  -- The buffer of 76 bytes holds the commitment and then the response.
  pub assemble_lem :
      (commitment : Bytes) (response : Scalar)
      → length commitment ≡ field_bytes
      → response < scalar_modulus
      → assemble commitment response ≡ commitment ++ le_bytes scalar_bytes response
  unfolding assemble
  assemble_lem commitment response n h =
      ap (λ t. copy_into field_bytes t (copy_into 0 commitment (replicate signature_bytes 0)))
        (write_canonical_bytes_lem response (replicate field_bytes 0) h refl)
      ∙ ap (copy_into field_bytes (le_bytes scalar_bytes response)) (
          copy_into_zeros commitment signature_bytes
          ∙ ap (λ t. commitment ++ replicate (signature_bytes - t) 0) n)
      ∙ copy_into_end commitment (replicate 38 0) (le_bytes scalar_bytes response) field_bytes n
          (length-le_bytes scalar_bytes response)

  -- What the buffer parses to, if it parses.
  assembled_parsed :
      (commitment : Bytes) (response : Scalar) {s : Signature}
      → length commitment ≡ field_bytes
      → response < scalar_modulus
      → Wire.from_bytes (assemble commitment response) ≡ ok s
      → (s.commitment_encoding ≡ commitment)
        × (s.response ≡ response)
        × (s.encoded ≡ commitment ++ le_bytes scalar_bytes response)
  assembled_parsed commitment response {s} n h e =
      let buffer = assemble_lem commitment response n h in
      let k = from_bytes-IsParsed e in
      (
        k.commitment_encoding
            ∙ ap (take field_bytes) buffer
            ∙ ap (λ t. take t (commitment ++ le_bytes scalar_bytes response)) (sym n)
            ∙ take-append commitment _,
        some_inj (
            sym k.response
            ∙ ap (λ t. Scalar.from_canonical_bytes (drop field_bytes t)) buffer
            ∙ ap
                (λ t.
                  Scalar.from_canonical_bytes
                    (drop t (commitment ++ le_bytes scalar_bytes response)))
                (sym n)
            ∙ ap Scalar.from_canonical_bytes (drop-append commitment _)
            ∙ ap Scalar.from_canonical_bytes
                (sym (write_canonical_bytes_lem response (replicate scalar_bytes 0) h refl))
            ∙ from_canonical_bytes-write response (replicate scalar_bytes 0) h refl),
        k.encoded ∙ buffer,
      )

module _ ⦃b : Bigint⦄ ⦃xof : Xof⦄ where
  -- A signature that has passed the checks at the end of `sign_expanded`.
  pub record IsChecked (expanded : ExpandedSecret) (message : Bytes) (s : Signature) : Type 0 where
    pub key : VerifyingKey
    pub key_accepted : VerifyingKey.from_bytes expanded.public_key ≡ ok key
    pub verified : VerifyingKey.verify key message s ≡ true
    pub subgroup : Edwards.is_prime_subgroup s.commitment ≡ true
    pub parses : Wire.from_bytes s.encoded ≡ ok s

  pub self_check-ok :
      (expanded : ExpandedSecret) (message encoded : Bytes) {s : Signature}
      → self_check expanded message encoded ≡ ok s
      → (Wire.from_bytes encoded ≡ ok s) × IsChecked expanded message s
  unfolding self_check
  self_check-ok expanded message encoded h =
      let (signature, e1, h1) = >>=-eq-ok _ _ h in
      let (subgroup, h2) = fail_if-ok _ _ _ h1 in
      let (key, e2, h3) = >>=-eq-ok _ _ h2 in
      let (verified, same) = fail_if-ok _ _ _ h3 in
      let parses = map_err-ok _ _ e1 ∙ same in
      (
        parses,
        record {
          key = key;
          key_accepted = map_err-ok _ _ e2;
          verified =
              ap (VerifyingKey.verify key message) (sym (ok_inj same)) ∙ not-eq-false _ verified;
          subgroup =
              ap (λ t. Edwards.is_prime_subgroup t.commitment) (sym (ok_inj same))
              ∙ not-eq-false _ subgroup;
          parses = ap Wire.from_bytes (from_bytes-IsParsed parses).encoded ∙ parses;
        },
      )

  -- The signature scheme on an expanded secret, with r the nonce scalar, R the commitment, k the
  -- challenge scalar, s the secret scalar and A the public key: R encodes [r] B, the response is
  -- r + k s modulo L, and the bytes are R followed by the response.
  pub record IsSigned (expanded : ExpandedSecret) (message : Bytes) (s : Signature) : Type 0 where
    pub commitment :
        Edwards.encode_public_artifact
          (Edwards.scalar_mul Edwards.basepoint (hashed (expanded.prefix ++ message)))
        ≡ some s.commitment_encoding
    pub response :
        s.response
        ≡ (hashed (expanded.prefix ++ message)
            + hashed (s.commitment_encoding ++ (expanded.public_key ++ message))
              * expanded.reduced_scalar)
          % scalar_modulus
    pub encoded : s.encoded ≡ s.commitment_encoding ++ le_bytes scalar_bytes s.response

  pub hashed-lt : (bytes : Bytes) → hashed bytes < scalar_modulus
  hashed-lt bytes = mod-lt _ (omega arith)

  -- `response` in `sign_expanded`, from the bytes of the commitment.
  abbrev pub response_to : ExpandedSecret → Bytes → Bytes → Scalar
  response_to expanded message commitment =
      Scalar.add (hash_to_scalar (nonce_hash expanded.prefix message)) (
        Scalar.mul (hash_to_scalar (challenge_hash commitment expanded.public_key message))
          expanded.reduced_scalar)

  pub response_value :
      (expanded : ExpandedSecret) (message commitment : Bytes)
      → response_to expanded message commitment
        ≡ (hashed (expanded.prefix ++ message)
            + hashed (commitment ++ (expanded.public_key ++ message)) * expanded.reduced_scalar)
          % scalar_modulus
  response_value expanded message commitment =
      ap₂ (λ r k. Scalar.add r (Scalar.mul k expanded.reduced_scalar))
        (nonce_lem expanded.prefix message) (challenge_lem commitment expanded.public_key message)
      ∙ response_lem _ _ expanded.reduced_scalar (hashed-lt (expanded.prefix ++ message))

  pub sign_expanded-ok :
      (expanded : ExpandedSecret) (message : Bytes) {s : Signature}
      → sign_expanded expanded message ≡ ok s
      → IsSigned expanded message s × IsChecked expanded message s
  unfolding sign_expanded
  sign_expanded-ok expanded message {s} h =
      let (member, h1) = fail_if-ok (not (Edwards.is_prime_subgroup (point_of nonce))) _ _ h in
      let (commitment, e, h2) =
        >>=-eq-ok (ok_or (Edwards.encode_public_artifact (point_of nonce)) internal_failure)
          (λ commitment.
            self_check expanded message
              (assemble commitment (response_to expanded message commitment)))
          h1 in
      let (parses, checked) = self_check-ok expanded message _ h2 in
      let encodes = ok_or-ok _ _ e in
      let same_nonce = nonce_lem expanded.prefix message in
      let value = response_value expanded message commitment in
      let (first, second, whole) =
        assembled_parsed commitment _ (encode_public_artifact-IsArray _ encodes).0
          (rw value (mod-lt _ (omega arith))) parses in
      (
        record {
          commitment =
              ap (λ r. Edwards.encode_public_artifact (point_of r)) (sym same_nonce)
              ∙ encodes
              ∙ ap some (sym first);
          response =
              second
              ∙ value
              ∙ ap
                  (λ c.
                    (hashed (expanded.prefix ++ message)
                      + hashed (c ++ (expanded.public_key ++ message)) * expanded.reduced_scalar)
                    % scalar_modulus)
                  (sym first);
          encoded = whole ∙ ap₂ (λ c r. c ++ le_bytes scalar_bytes r) (sym first) (sym second);
        },
        checked,
      )
    where
      nonce : Scalar
      nonce = hash_to_scalar (nonce_hash expanded.prefix message)

      point_of : Scalar → EdwardsPoint
      point_of r = Edwards.scalar_mul Edwards.basepoint r
