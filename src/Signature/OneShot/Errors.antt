-- ===== src/Signature/OneShot/Errors.antt =====
-- signature.rs: the errors of the exported `sign`.
use mathlib.Core.Bool.{false≢true}
use ed301_eddsa.Base.{
  ◌≡◌, ◌≢◌, ◌⊎◌, inl, inr, refl, sym, ap, ◌∙◌, Bool, true, false, not, length, ==_iff, ◌==◌,
  if◌then◌else◌, none, some, Option,
}
use ed301_eddsa.Base.Bytes.{Bytes}
use ed301_eddsa.Base.Results.{
  Result, ok, err, ◌>>=◌, ok_or, map_err, to_array, err_inj, fails_with, ok-not_err, fail_if_with,
  chain_with, map_err_const, to_array_exact,
}
use ed301_eddsa.Parameters.{seed_bytes}
use ed301_eddsa.Libraries.Bigint.{Bigint}
use ed301_eddsa.Libraries.Xof.{Xof}
use ed301_eddsa.Edwards
use ed301_eddsa.SignatureHash.{nonce_hash, hash_to_scalar}
use ed301_eddsa.Signature.Error.{SignatureError, invalid_seed_length, internal_failure}
use ed301_eddsa.Signature.Wire.{Signature}
use ed301_eddsa.Signature.Wire
use ed301_eddsa.Signature.VerifyingKey.{VerifyingKey}
use ed301_eddsa.Signature.VerifyingKey
use ed301_eddsa.Signature.Expanded.{ExpandedSecret, derive}
use ed301_eddsa.Signature.Expanded.Derive.{derive-error}
use ed301_eddsa.Signature.Signing.{
  SigningKey, from_seed, verifying_key, self_check, sign_expanded, assemble, as_internal,
}
use ed301_eddsa.Signature.Signing
use ed301_eddsa.Signature.OneShot.{sign}

-- The import of a seed looks at its length only.
pub from_seed_cases :
    (seed : Bytes)
    → ((length seed ≡ seed_bytes) × (from_seed seed ≡ ok (record { seed = seed })))
      ⊎ ((length seed ≢ seed_bytes) × (from_seed seed ≡ err invalid_seed_length))
unfolding from_seed
from_seed_cases seed = by_length (length seed == seed_bytes) refl
  where
    imported : Option Bytes → Result SignatureError SigningKey
    imported m = ok_or m invalid_seed_length >>= λ seed. ok (record { seed = seed })

    by_length :
        (c : Bool)
        → (length seed == seed_bytes) ≡ c
        → ((length seed ≡ seed_bytes)
            × (imported (to_array seed_bytes seed) ≡ ok (record { seed = seed })))
          ⊎ ((length seed ≢ seed_bytes)
              × (imported (to_array seed_bytes seed) ≡ err invalid_seed_length))
    by_length true e =
        let total = (==_iff _ _).0 e in
        inl (total, ap imported (to_array_exact seed_bytes seed total))
    by_length false e = inr (
      λ n. false≢true (sym e ∙ (==_iff _ _).1 n),
      ap (λ c. imported (if c then some seed else none)) e,
    )

module _ ⦃b : Bigint⦄ ⦃xof : Xof⦄ where
  self_check-error :
      (expanded : ExpandedSecret) (message encoded : Bytes) {e : SignatureError}
      → self_check expanded message encoded ≡ err e
      → e ≡ internal_failure
  unfolding self_check
  self_check-error expanded message encoded h =
      chain_with (map_err as_internal (Wire.from_bytes encoded)) h (map_err_const _) λ s _ h.
        fail_if_with (not (Edwards.is_prime_subgroup s.commitment)) h λ h.
          chain_with (map_err as_internal (VerifyingKey.from_bytes expanded.public_key)) h
            (map_err_const _)
            λ key _ h. fail_if_with (not (VerifyingKey.verify key message s)) h λ h. ok-not_err h

  sign_expanded-error :
      (expanded : ExpandedSecret) (message : Bytes) {e : SignatureError}
      → sign_expanded expanded message ≡ err e
      → e ≡ internal_failure
  unfolding sign_expanded
  sign_expanded-error expanded message h =
      fail_if_with (not (Edwards.is_prime_subgroup point)) h λ h.
        fails_with (Edwards.encode_public_artifact point) h
          λ commitment h. self_check-error expanded message _ h
    where
      point : Edwards.EdwardsPoint
      point =
          Edwards.scalar_mul Edwards.basepoint (hash_to_scalar (nonce_hash expanded.prefix message))

  -- Signing fails with the seed-length error only where the seed is not 38 bytes long, and with
  -- the internal failure only where it is.
  pub sign-error :
      (seed message : Bytes) (e : SignatureError)
      → sign seed message ≡ err e
      → ((length seed ≢ seed_bytes) × (e ≡ invalid_seed_length))
        ⊎ ((length seed ≡ seed_bytes) × (e ≡ internal_failure))
  unfolding sign Signing.sign
  sign-error seed message e h = by_cases (from_seed_cases seed)
    where
      rest : SigningKey → Result SignatureError Bytes
      rest key = Signing.sign key message >>= λ s. ok (Wire.to_bytes s)

      signing_fails : (key : SigningKey) → rest key ≡ err e → e ≡ internal_failure
      signing_fails key k =
          chain_with (Signing.sign key message) k
            (λ k.
              chain_with (derive key.seed) k (derive-error key.seed)
                λ expanded _ k. sign_expanded-error expanded message k)
            λ s _ k. ok-not_err k

      by_cases :
          ((length seed ≡ seed_bytes) × (from_seed seed ≡ ok (record { seed = seed })))
            ⊎ ((length seed ≢ seed_bytes) × (from_seed seed ≡ err invalid_seed_length))
          → ((length seed ≢ seed_bytes) × (e ≡ invalid_seed_length))
            ⊎ ((length seed ≡ seed_bytes) × (e ≡ internal_failure))
      by_cases (inl (total, k)) =
          inr (total, signing_fails (record { seed = seed }) (ap (λ m. m >>= rest) (sym k) ∙ h))
      by_cases (inr (other, k)) = inl (other, sym (err_inj (ap (λ m. m >>= rest) (sym k) ∙ h)))
