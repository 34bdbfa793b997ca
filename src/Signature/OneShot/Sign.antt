-- ===== src/Signature/OneShot/Sign.antt =====
-- signature.rs: what the exported `sign` returns, and its relation to `verify`.
use ed301_eddsa.Base.{◌≡◌, sym, ap, ◌∙◌, Bool, true, length}
use ed301_eddsa.Base.Bytes.{Bytes}
use ed301_eddsa.Base.Results.{
  Result, ok, ◌>>=◌, map_err, ok_inj, >>=-eq-ok, ok_or-ok, to_array-some,
}
use ed301_eddsa.Parameters.{seed_bytes}
use ed301_eddsa.Libraries.Bigint.{Bigint}
use ed301_eddsa.Libraries.Xof.{Xof}
use ed301_eddsa.Edwards
use ed301_eddsa.Signature.Error.{SignatureError}
use ed301_eddsa.Signature.Wire.{Signature}
use ed301_eddsa.Signature.Wire
use ed301_eddsa.Signature.VerifyingKey.{VerifyingKey}
use ed301_eddsa.Signature.VerifyingKey
use ed301_eddsa.Signature.VerifyingKey.Parse.{key_iff}
use ed301_eddsa.Signature.Expanded.{ExpandedSecret, derive}
use ed301_eddsa.Signature.Expanded.Derive.{IsExpanded, derive-ok}
use ed301_eddsa.Signature.Signing.{
  SigningKey, from_seed, verifying_key, self_check, sign_expanded, assemble, as_internal,
}
use ed301_eddsa.Signature.Signing
use ed301_eddsa.Signature.Signing.Formula.{IsSigned, sign_expanded-ok}
use ed301_eddsa.Signature.OneShot.{or_false, sign, verify}

pub from_seed-ok :
    (seed : Bytes) (key : SigningKey)
    → from_seed seed ≡ ok key
    → (length seed ≡ seed_bytes) × (key.seed ≡ seed)
unfolding from_seed
from_seed-ok seed key h =
    let (array, e, h1) = >>=-eq-ok _ _ h in
    let (total, same) = to_array-some _ _ (ok_or-ok _ _ e) in
    (total, ap (λ k. k.seed) (sym (ok_inj h1)) ∙ same)

module _ ⦃b : Bigint⦄ ⦃xof : Xof⦄ where
  -- What stands behind a result of `sign`.
  record IsSigning (seed message signature : Bytes) : Type 0 where
    key : SigningKey
    expanded : ExpandedSecret
    parsed : Signature
    imported : from_seed seed ≡ ok key
    total : length seed ≡ seed_bytes
    same_seed : key.seed ≡ seed
    derived : derive seed ≡ ok expanded
    signed : sign_expanded expanded message ≡ ok parsed
    result : parsed.encoded ≡ signature

  sign-IsSigning :
      (seed message signature : Bytes)
      → sign seed message ≡ ok signature
      → IsSigning seed message signature
  unfolding sign Signing.sign Wire.to_bytes
  sign-IsSigning seed message signature h =
      let (key, e, h1) = >>=-eq-ok _ _ h in
      let (parsed, s, h2) = >>=-eq-ok _ _ h1 in
      let (expanded, d, h3) = >>=-eq-ok _ _ s in
      let (total, same) = from_seed-ok seed key e in
      record {
        key = key;
        expanded = expanded;
        parsed = parsed;
        imported = e;
        total = total;
        same_seed = same;
        derived = ap derive (sym same) ∙ d;
        signed = h3;
        result = ok_inj h2;
      }

  -- A returned signature is that of the scheme for the secret that a seed of 38 bytes expands to:
  -- R encodes [r] B with r the hash of prefix and message, the response is r + k s modulo L with k
  -- the hash of R, public key and message, and the bytes are R followed by the response.
  pub sign_formula :
      (seed message signature : Bytes)
      → sign seed message ≡ ok signature
      → (expanded : ExpandedSecret) × (parsed : Signature) × (length seed ≡ seed_bytes)
        × IsExpanded seed expanded
        × IsSigned expanded message parsed
        × (Edwards.is_prime_subgroup parsed.commitment ≡ true)
        × (parsed.encoded ≡ signature)
  sign_formula seed message signature h =
      let k = sign-IsSigning seed message signature h in
      let (formula, checked) = sign_expanded-ok k.expanded message k.signed in
      (
        k.expanded,
        k.parsed,
        k.total,
        derive-ok seed k.expanded k.derived,
        formula,
        checked.subgroup,
        k.result,
      )

  -- Whatever sign returns for a seed and a message, verify accepts it for that message under the
  -- bytes of the verifying key that the seed derives, and that derivation succeeds.
  pub sign-verify :
      (seed message signature : Bytes)
      → sign seed message ≡ ok signature
      → (key : SigningKey) × (public_key : VerifyingKey) × (from_seed seed ≡ ok key)
        × (verifying_key key ≡ ok public_key)
        × (verify (VerifyingKey.to_bytes public_key) message signature ≡ true)
  unfolding verifying_key verify VerifyingKey.to_bytes
  sign-verify seed message signature h =
      let k = sign-IsSigning seed message signature h in
      let (formula, checked) = sign_expanded-ok k.expanded message k.signed in
      let accepted = (key_iff k.expanded.public_key checked.key).0 checked.key_accepted in
      (
        k.key,
        checked.key,
        k.imported,
        ap (λ s. derive s >>= λ e. map_err as_internal (VerifyingKey.from_bytes e.public_key))
              k.same_seed
            ∙ ap (λ m. m >>= λ e. map_err as_internal (VerifyingKey.from_bytes e.public_key))
                k.derived
            ∙ ap (map_err as_internal) checked.key_accepted,
        ap (λ p. accepts p) (ap VerifyingKey.from_bytes accepted.encoded ∙ checked.key_accepted)
            ∙ ap (λ s. or_false s λ t. VerifyingKey.verify checked.key message t)
                (ap Wire.from_bytes (sym k.result) ∙ checked.parses)
            ∙ checked.verified,
      )
    where
      accepts : Result SignatureError VerifyingKey → Bool
      accepts p =
          or_false p
            λ key. or_false (Wire.from_bytes signature) λ s. VerifyingKey.verify key message s
