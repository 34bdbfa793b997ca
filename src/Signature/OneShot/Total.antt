-- ===== src/Signature/OneShot/Total.antt =====
-- signature.rs: signing with a seed of 38 bytes never fails.
use ed301_eddsa.Base.{◌≡◌, ◌≢◌, ◌↔◌, inl, inr, sym, ap, ◌∙◌, true, length}
use ed301_eddsa.Base.Bytes.{Bytes}
use ed301_eddsa.Base.Results.{Result, ok, err, ◌>>=◌, ok-not_err}
use ed301_eddsa.Parameters.{seed_bytes}
use ed301_eddsa.Libraries.Bigint.{Bigint}
use ed301_eddsa.Libraries.Xof.{Xof}
use ed301_eddsa.Signature.Error.{SignatureError, invalid_seed_length}
use ed301_eddsa.Signature.Wire
use ed301_eddsa.Signature.VerifyingKey.{VerifyingKey}
use ed301_eddsa.Signature.VerifyingKey
use ed301_eddsa.Signature.Expanded.Total.{derive_total}
use ed301_eddsa.Signature.Signing.{SigningKey, from_seed, verifying_key, sign_expanded}
use ed301_eddsa.Signature.Signing
use ed301_eddsa.Signature.Signing.Total.{sign_expanded_total}
use ed301_eddsa.Signature.OneShot.{sign, verify}
use ed301_eddsa.Signature.OneShot.Sign.{sign-verify}
use ed301_eddsa.Signature.OneShot.Errors.{from_seed_cases, sign-error}

module _ ⦃b : Bigint⦄ ⦃xof : Xof⦄ where
  rest : Bytes → SigningKey → Result SignatureError Bytes
  rest message key = Signing.sign key message >>= λ signature. ok (Wire.to_bytes signature)

  pub sign-ok :
      (seed message : Bytes)
      → length seed ≡ seed_bytes
      → (signature : Bytes) × (sign seed message ≡ ok signature)
  unfolding sign Signing.sign rest
  sign-ok seed message n = elim (from_seed_cases seed) [
    | inl (total, imported) ↦
        let k = derive_total seed in
        let (s, signed) = sign_expanded_total seed message k in
        (
          Wire.to_bytes s,
          ap (λ m. m >>= rest message) imported
              ∙ ap
                  (λ m. (m >>= λ expanded. sign_expanded expanded message) >>= λ s.
                    ok (Wire.to_bytes s))
                  k.derived
              ∙ ap (λ m. m >>= λ s. ok (Wire.to_bytes s)) signed,
        )
    | inr (other, fails) ↦ absurd (other n)
  ]

  -- For a seed of 38 bytes and any message, the import of the seed, the derivation of the
  -- verifying key and the signing all succeed, and verify accepts the signature for the message
  -- under the bytes of that key.
  pub sign_total :
      (seed message : Bytes)
      → length seed ≡ seed_bytes
      → (key : SigningKey) × (public_key : VerifyingKey) × (signature : Bytes) × (from_seed seed
          ≡ ok key)
        × (verifying_key key ≡ ok public_key)
        × (sign seed message ≡ ok signature)
        × (verify (VerifyingKey.to_bytes public_key) message signature ≡ true)
  sign_total seed message n =
      let (signature, signed) = sign-ok seed message n in
      let (key, public_key, imported, derived, accepted) =
        sign-verify seed message signature signed in
      (key, public_key, signature, imported, derived, signed, accepted)

  -- Signing fails exactly where the seed is not 38 bytes long, and only with the seed-length
  -- error.
  pub sign_error_iff :
      (seed message : Bytes) (e : SignatureError)
      → (sign seed message ≡ err e) ↔ ((length seed ≢ seed_bytes) × (e ≡ invalid_seed_length))
  unfolding sign rest
  sign_error_iff seed message e = (
    λ h. elim (sign-error seed message e h) [
      | inl k ↦ k
      | inr (n, internal) ↦ ok-not_err (sym (sign-ok seed message n).1 ∙ h)
    ],
    λ k. elim (from_seed_cases seed) [
      | inl (total, imported) ↦ absurd (k.0 total)
      | inr (other, fails) ↦ ap (λ m. m >>= rest message) fails ∙ ap err (sym k.1)
    ],
  )
