-- ===== src/Examples/Signatures.antt =====
-- The theorems on signatures, applied to the second known answer.
use ed301_eddsa.Base.{
  none, ◌+◌, ◌*◌, ◌/◌, ◌%◌, ◌^◌, ◌≤◌, ◌<◌, ◌≡◌, ◌≢◌, ◌↔◌, refl, true, false, some, ◌++◌, take,
  length,
}
use ed301_eddsa.Base.{sym, ap, ◌∙◌, some_inj, ◌>>=◌}
use ed301_eddsa.Base.Bytes.{Bytes, IsBytes, IsBytes_of, IsArray, le_value}
use ed301_eddsa.Base.Results.{ok, err}
use ed301_eddsa.Parameters.{field_bytes, seed_bytes, scalar_modulus}
use ed301_eddsa.Scalar
use ed301_eddsa.Edwards
use ed301_eddsa.Edwards.{EdwardsPoint}
use ed301_eddsa.Edwards.Group.{ct_eq_iff}
use ed301_eddsa.Edwards.OnCurve.{IsOnCurve}
use ed301_eddsa.Edwards.Codec.{encode-decode, decode_injective}
use ed301_eddsa.Signature.Error.{invalid_seed_length}
use ed301_eddsa.Signature.Wire.{Signature}
use ed301_eddsa.Signature.Wire
use ed301_eddsa.Signature.Wire.Parse.{IsParsed, parse_iff, parsed_canonical, from_bytes_injective}
use ed301_eddsa.Signature.VerifyingKey.{VerifyingKey}
use ed301_eddsa.Signature.VerifyingKey
use ed301_eddsa.Signature.VerifyingKey.Parse.{IsKey, key_iff, key_canonical}
use ed301_eddsa.Signature.VerifyingKey.Equation.{Equation, verify_iff}
use ed301_eddsa.Signature.Expanded.{ExpandedSecret, prune}
use ed301_eddsa.Signature.Expanded.Prune.{prune_lem}
use ed301_eddsa.Signature.Expanded.Derive.{IsExpanded, derive-ok}
use ed301_eddsa.Signature.Signing
use ed301_eddsa.Signature.Signing.{SigningKey}
use ed301_eddsa.Signature.Signing.Formula.{IsSigned}
use ed301_eddsa.Signature.OneShot
use ed301_eddsa.Signature.OneShot.Sign.{sign-verify, sign_formula}
use ed301_eddsa.Signature.OneShot.Verify.{one_shot_verify_iff}
use ed301_eddsa.SignatureHash
use ed301_eddsa.SignatureHash.Oracle.{single_update, hashes-single_update}
use ed301_eddsa.Signature.Failpoints.{sign_intermediates, returned, panicked, interrupted}
use ed301_eddsa.Signature.Failpoints.Recovery.{interrupted_lem}
use ed301_eddsa.Signature.Trace.{Trace, trace}
use ed301_eddsa.Signature.Trace.Agreement.{trace-sign}
use ed301_eddsa.Signature.OneShot.Unique.{verify_unique}
use ed301_eddsa.Signature.VerifyingKey.Cofactorless.{verify_cofactorless}
use ed301_eddsa.Signature.VerifyingKey.Equation.{hashed}
use ed301_eddsa.Examples.Points.{commitment_checked}
use ed301_eddsa.Signature.OneShot.Total.{sign_total, sign_error_iff}
use ed301_eddsa.Examples.Vectors.{backend, hasher, seed, message, public_key, signature, short}
use ed301_eddsa.Examples.Runs.{signs, verifies, derives, expanded}

sign-verify_example :
    (key : SigningKey) × (accepted : VerifyingKey) × (Signing.from_seed seed ≡ ok key)
    × (Signing.verifying_key key ≡ ok accepted)
    × (OneShot.verify (VerifyingKey.to_bytes accepted) message signature ≡ true)
sign-verify_example = sign-verify seed message signature signs

sign_formula_example :
    (secret : ExpandedSecret) × (parsed : Signature) × (length seed ≡ seed_bytes)
    × IsExpanded seed secret
    × IsSigned secret message parsed
    × (Edwards.is_prime_subgroup parsed.commitment ≡ true)
    × (parsed.encoded ≡ signature)
sign_formula_example = sign_formula seed message signature signs

one_shot_verify_iff_example : (OneShot.verify public_key message signature ≡ true) ↔ (
    (key : VerifyingKey) × (parsed : Signature) × IsKey public_key key
    × IsParsed signature parsed
    × Equation key message parsed)
one_shot_verify_iff_example = one_shot_verify_iff public_key message signature

-- The key and the signature that the accepted bytes stand for.
abbrev parts :
    (key : VerifyingKey) × (parsed : Signature) × IsKey public_key key
    × IsParsed signature parsed
    × Equation key message parsed
parts = (one_shot_verify_iff public_key message signature).0 verifies

abbrev key : VerifyingKey
key = parts.0

abbrev parsed : Signature
parsed = parts.1

key_accepted : VerifyingKey.from_bytes public_key ≡ ok key
key_accepted = (key_iff public_key key).1 parts.2

parses : Wire.from_bytes signature ≡ ok parsed
parses = (parse_iff signature parsed).1 parts.3

abbrev key_bytes : IsBytes public_key
key_bytes = IsBytes_of public_key refl

abbrev signature_bytes_small : IsBytes signature
signature_bytes_small = IsBytes_of signature refl

same_point : (p : EdwardsPoint) → Edwards.ct_eq p p ≡ true
same_point p = (ct_eq_iff p p).1 (refl, refl)

verify_iff_example : (VerifyingKey.verify key message parsed ≡ true) ↔ Equation key message parsed
verify_iff_example = verify_iff key message parsed

parse_iff_example : (Wire.from_bytes signature ≡ ok parsed) ↔ IsParsed signature parsed
parse_iff_example = parse_iff signature parsed

parsed_canonical_example :
    (Wire.to_bytes parsed ≡ signature)
    × IsOnCurve parsed.commitment
    × (parsed.response < scalar_modulus)
    × (Edwards.encode parsed.commitment ≡ some parsed.commitment_encoding)
    × (signature ≡ parsed.commitment_encoding ++ Scalar.canonical_bytes parsed.response)
parsed_canonical_example = parsed_canonical signature parsed signature_bytes_small parses

from_bytes_injective_example : signature ≡ signature
from_bytes_injective_example =
    from_bytes_injective signature signature parsed parsed signature_bytes_small
      signature_bytes_small parses parses (same_point parsed.commitment) refl

key_iff_example : (VerifyingKey.from_bytes public_key ≡ ok key) ↔ IsKey public_key key
key_iff_example = key_iff public_key key

key_canonical_example :
    (VerifyingKey.to_bytes key ≡ public_key)
    × IsOnCurve key.point
    × (Edwards.is_identity key.point ≡ false)
    × (Edwards.encode key.point ≡ some public_key)
key_canonical_example = key_canonical public_key key key_bytes key_accepted

derive-ok_example : IsExpanded seed expanded
derive-ok_example = derive-ok seed expanded derives

prune_lem_example :
    IsArray field_bytes (prune signature)
    × (le_value (prune signature)
        ≡ 2 ^ 300 + le_value (take field_bytes signature) % 2 ^ 300 / 4 * 4)
    × (2 ^ 300 ≤ le_value (prune signature))
    × (le_value (prune signature) < 2 ^ 301)
    × (le_value (prune signature) % 4 ≡ 0)
prune_lem_example = prune_lem signature (refl, signature_bytes_small)

encode-decode_example :
    (Edwards.encode key.point ≡ some public_key)
    × (Edwards.encode_public_artifact key.point ≡ some public_key)
    × IsOnCurve key.point
encode-decode_example = encode-decode public_key key.point (refl, key_bytes) parts.2.decodes

decode_injective_example : public_key ≡ public_key
decode_injective_example =
    decode_injective public_key public_key key.point key.point (refl, key_bytes) (refl, key_bytes)
      parts.2.decodes parts.2.decodes (same_point key.point)

sign_total_example :
    (key : SigningKey) × (public_key : VerifyingKey) × (signature : Bytes) × (Signing.from_seed seed
      ≡ ok key)
    × (Signing.verifying_key key ≡ ok public_key)
    × (OneShot.sign seed message ≡ ok signature)
    × (OneShot.verify (VerifyingKey.to_bytes public_key) message signature ≡ true)
sign_total_example = sign_total seed message refl

sign_error_iff_example :
    (OneShot.sign short message ≡ err invalid_seed_length)
    ↔ ((length short ≢ seed_bytes) × (invalid_seed_length ≡ invalid_seed_length))
sign_error_iff_example = sign_error_iff short message invalid_seed_length

trace-sign_example :
    (t : Trace) × (trace seed message ≡ some t) × (OneShot.sign seed message ≡ ok t.signature)
trace-sign_example = trace-sign seed message refl

hashes-single_update_example :
    (SignatureHash.expand_seed seed ≡ single_update seed)
    × (SignatureHash.nonce_hash short message ≡ single_update (short ++ message))
    × (SignatureHash.challenge_hash public_key public_key message
        ≡ single_update (public_key ++ (public_key ++ message)))
hashes-single_update_example = hashes-single_update seed short public_key public_key message

abbrev signing_key : SigningKey
signing_key = record { seed = seed }

interrupted_lem_example :
    (s : Signature) × (Signing.sign signing_key message ≡ ok s)
    × (interrupted sign_intermediates signing_key message none
        ≡ ((panicked, returned (ok s)), none))
interrupted_lem_example = interrupted_lem sign_intermediates signing_key message none

verify_unique_example : signature ≡ signature
verify_unique_example =
    verify_unique public_key message signature signature signature_bytes_small signature_bytes_small
      refl verifies verifies

commitment_subgroup : Edwards.is_prime_subgroup parsed.commitment ≡ true
commitment_subgroup = some_inj (
    sym (ap (λ m. m >>= λ p. some (Edwards.is_prime_subgroup p)) parts.3.commitment)
    ∙ commitment_checked)

verify_cofactorless_example : (VerifyingKey.verify key message parsed ≡ true) ↔ (
    Edwards.ct_eq (Edwards.scalar_mul Edwards.basepoint parsed.response) (
      Edwards.add parsed.commitment (
        Edwards.scalar_mul key.point
          (hashed (parsed.commitment_encoding ++ (key.encoded ++ message)))))
    ≡ true)
verify_cofactorless_example =
    verify_cofactorless public_key message signature key parsed signature_bytes_small key_accepted
      parses commitment_subgroup
