-- ===== src/Signature/OneShot/Verify.antt =====
-- signature.rs: what the exported `verify` and `validate_public_key` accept.
use ed301_eddsa.Base.{◌≡◌, ◌↔◌, refl, ap, ◌∙◌, Bool, true, false, some}
use ed301_eddsa.Base.{length}
use ed301_eddsa.Base.Bytes.{Bytes}
use ed301_eddsa.Base.Results.{Result, ok, err, is_ok}
use ed301_eddsa.Parameters.{public_key_bytes}
use ed301_eddsa.Libraries.Bigint.{Bigint}
use ed301_eddsa.Libraries.Xof.{Xof}
use ed301_eddsa.Edwards
use ed301_eddsa.Edwards.{EdwardsPoint}
use ed301_eddsa.Signature.Error.{SignatureError}
use ed301_eddsa.Signature.Wire.{Signature}
use ed301_eddsa.Signature.Wire
use ed301_eddsa.Signature.Wire.Parse.{IsParsed, parse_iff}
use ed301_eddsa.Signature.VerifyingKey.{VerifyingKey}
use ed301_eddsa.Signature.VerifyingKey
use ed301_eddsa.Signature.VerifyingKey.Parse.{IsKey, key_iff}
use ed301_eddsa.Signature.VerifyingKey.Equation.{Equation, verify_iff}
use ed301_eddsa.Signature.OneShot.{or_false, verify, validate_public_key}

or_false-eq-true :
    {A : Type 0} (m : Result SignatureError A) (f : A → Bool)
    → or_false m f ≡ true
    → (a : A) × (m ≡ ok a) × (f a ≡ true)
or_false-eq-true (ok a) f h = (a, refl, h)
or_false-eq-true (err e) f h = cc

is_ok-eq-true : {A : Type 0} (m : Result SignatureError A) → is_ok m ≡ true → (a : A) × (m ≡ ok a)
is_ok-eq-true (ok a) h = (a, refl)
is_ok-eq-true (err e) h = cc

module _ ⦃b : Bigint⦄ where
  -- A public key is valid exactly if it is 38 bytes that decode to a point other than the identity
  -- on which the order of the prime subgroup gives the identity.
  pub validate_public_key_iff :
      (public_key : Bytes)
      → (validate_public_key public_key ≡ true) ↔ (
          (length public_key ≡ public_key_bytes)
          × ((point : EdwardsPoint) × (Edwards.decode public_key ≡ some point)
              × (Edwards.is_identity point ≡ false)
              × (Edwards.is_prime_subgroup point ≡ true)))
  unfolding validate_public_key
  validate_public_key_iff public_key = (
    λ h.
        let (key, e) = is_ok-eq-true _ h in
        let k = (key_iff public_key key).0 e in
        (k.total, (key.point, k.decodes, k.nonidentity, k.subgroup)),
    λ (total, (point, decodes, nonidentity, subgroup)). ap is_ok (
        (key_iff public_key (record { encoded = public_key; point = point })).1 (record {
          total = total;
          encoded = refl;
          decodes = decodes;
          nonidentity = nonidentity;
          subgroup = subgroup;
        })),
  )

module _ ⦃b : Bigint⦄ ⦃xof : Xof⦄ where
  -- Verify accepts exactly if the key is a valid key, the signature is 76 bytes that parse, and
  -- the cofactored equation holds for what they stand for.
  pub one_shot_verify_iff :
      (public_key message signature : Bytes)
      → (verify public_key message signature ≡ true) ↔ (
          (key : VerifyingKey) × (parsed : Signature) × IsKey public_key key
          × IsParsed signature parsed
          × Equation key message parsed)
  unfolding verify
  one_shot_verify_iff public_key message signature = (
    λ h.
        let (key, e, h1) = or_false-eq-true _ _ h in
        let (parsed, d, h2) = or_false-eq-true _ _ h1 in
        (
          key,
          parsed,
          (key_iff public_key key).0 e,
          (parse_iff signature parsed).0 d,
          (verify_iff key message parsed).0 h2,
        ),
    λ (key, parsed, k, p, equation).
        ap
          (λ m.
            or_false m
              λ key. or_false (Wire.from_bytes signature) λ s. VerifyingKey.verify key message s)
          ((key_iff public_key key).1 k)
        ∙ ap (λ m. or_false m λ s. VerifyingKey.verify key message s)
            ((parse_iff signature parsed).1 p)
        ∙ (verify_iff key message parsed).1 equation,
  )
