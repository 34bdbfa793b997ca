-- ===== src/Signature/OneShot/Unique.antt =====
-- signature.rs: at most one response for a commitment.
use ed301_eddsa.Base.{◌+◌, ◌^◌, ◌<◌, arith, ◌≡◌, sym, ap, ap₂, ◌∙◌, true, some_inj, ◌++◌, take}
use ed301_eddsa.Base.Bytes.{Bytes, IsBytes}
use ed301_eddsa.Base.Results.{ok_inj}
use ed301_eddsa.Parameters.{field_bytes, scalar_modulus}
use ed301_eddsa.Libraries.Bigint.{Bigint}
use ed301_eddsa.Libraries.Xof.{Xof}
use ed301_eddsa.Scalar.{Scalar}
use ed301_eddsa.Scalar
use ed301_eddsa.Edwards
use ed301_eddsa.Edwards.{EdwardsPoint, add, double, scalar_mul, basepoint}
use ed301_eddsa.Edwards.Group.{SamePoint, ct_eq_iff}
use ed301_eddsa.Edwards.Affine.{Affine}
use ed301_eddsa.Edwards.Law.{sum}
use ed301_eddsa.Edwards.Law.Times.{times, times-add}
use ed301_eddsa.Edwards.Law.Refined.{Stands, affine, add-Stands, double-Stands, scalar_mul-Stands}
use ed301_eddsa.Edwards.Law.Order.{base, base-OnAffine, basepoint-Stands}
use ed301_eddsa.Edwards.Law.Cyclic.{times_injective}
use ed301_eddsa.Edwards.Law.Compared.{ct_eq-Stands}
use ed301_eddsa.Signature.Wire.{Signature}
use ed301_eddsa.Signature.Wire.Parse.{IsParsed, parse_iff, parsed_canonical}
use ed301_eddsa.Signature.VerifyingKey.{VerifyingKey}
use ed301_eddsa.Signature.VerifyingKey.Parse.{IsKey, key_iff}
use ed301_eddsa.Signature.VerifyingKey.Equation.{Equation, hashed}
use ed301_eddsa.Signature.Signing.Formula.{hashed-lt}
use ed301_eddsa.Signature.VerifyingKey.Cofactorless.{decoded-Stands}
use ed301_eddsa.Signature.OneShot.{verify}
use ed301_eddsa.Signature.OneShot.Verify.{one_shot_verify_iff}

module _ ⦃b : Bigint⦄ where
  -- The right side of the equation, in the affine group.
  right_side : EdwardsPoint → EdwardsPoint → Scalar → Affine
  right_side r a k = let t = sum (affine r) (times k (affine a)) in sum (sum t t) (sum t t)

  fourfold :
      (s : Scalar)
      → times (s + s + (s + s)) base
        ≡ sum (sum (times s base) (times s base)) (sum (times s base) (times s base))
  fourfold s =
      times-add (s + s) (s + s) base base-OnAffine
      ∙ ap (λ t. sum t t) (times-add s s base base-OnAffine)

  equation_times :
      (r a : EdwardsPoint) (k s : Scalar)
      → Stands r (affine r)
      → Stands a (affine a)
      → k < 2 ^ 301
      → s < 2 ^ 301
      → SamePoint
          (double (double (scalar_mul basepoint s)))
          (double (double (add r (scalar_mul a k))))
      → times (s + s + (s + s)) base ≡ right_side r a k
  unfolding right_side
  equation_times r a k s hr ha hk hs e =
      fourfold s
      ∙ (ct_eq-Stands (double-Stands (double-Stands (scalar_mul-Stands s basepoint-Stands hs)))
            (double-Stands (double-Stands (add-Stands hr (scalar_mul-Stands k ha hk))))).0
          ((ct_eq_iff _ _).1 e)

  -- Two responses below L with the same fourfold multiple of the base point are the same.
  response_eq :
      (s t : Scalar)
      → s < scalar_modulus
      → t < scalar_modulus
      → times (s + s + (s + s)) base ≡ times (t + t + (t + t)) base
      → s ≡ t
  response_eq s t hs ht e =
      let same = times_injective (s + s + (s + s)) (t + t + (t + t)) e in omega (arith, same)

module _ ⦃b : Bigint⦄ ⦃xof : Xof⦄ where
  -- What an accepted signature says of its response.
  accepted-times :
      (public_key message bytes : Bytes) (key : VerifyingKey) (s : Signature)
      → IsBytes bytes
      → IsKey public_key key
      → IsParsed bytes s
      → Equation key message s
      → times (s.response + s.response + (s.response + s.response)) base
        ≡ right_side s.commitment key.point
            (hashed (s.commitment_encoding ++ (key.encoded ++ message)))
  accepted-times public_key message bytes key s h k p e =
      let (same, on_curve, below, encodes, split) =
        parsed_canonical bytes s h ((parse_iff bytes s).1 p) in
      equation_times s.commitment key.point _ s.response (decoded-Stands _ p.commitment)
        (decoded-Stands _ k.decodes)
        (omega (arith, hashed-lt (s.commitment_encoding ++ (key.encoded ++ message))))
        (omega (arith, below)) e

  -- Two strings of bytes that agree in their first 38 and that verify accepts as signatures of the
  -- same message under the same public key are the same.
  pub verify_unique :
      (public_key message signature other : Bytes)
      → IsBytes signature
      → IsBytes other
      → take field_bytes signature ≡ take field_bytes other
      → verify public_key message signature ≡ true
      → verify public_key message other ≡ true
      → signature ≡ other
  verify_unique public_key message signature other h h' same v v' =
      let (key, s, k, p, e) = (one_shot_verify_iff public_key message signature).0 v in
      let (key', s', k', p', e') = (one_shot_verify_iff public_key message other).0 v' in
      let (_, _, below, _, split) = parsed_canonical signature s h ((parse_iff signature s).1 p) in
      let (_, _, below', _, split') = parsed_canonical other s' h' ((parse_iff other s').1 p') in
      let same_encoding = p.commitment_encoding ∙ same ∙ sym p'.commitment_encoding in
      let same_commitment = some_inj (sym p.commitment ∙ ap Edwards.decode same ∙ p'.commitment) in
      let same_key = ok_inj (sym ((key_iff public_key key).1 k) ∙ (key_iff public_key key').1 k') in
      let same_response = response_eq s.response s'.response below below' (
        accepted-times public_key message signature key s h k p e
        ∙ (λ i.
            right_side (same_commitment i) (same_key i).point
              (hashed (same_encoding i ++ ((same_key i).encoded ++ message))))
        ∙ sym (accepted-times public_key message other key' s' h' k' p' e')) in
      split ∙ ap₂ (λ c r. c ++ Scalar.canonical_bytes r) same_encoding same_response ∙ sym split'
