-- ===== src/Signature/VerifyingKey/Cofactorless.antt =====
-- signature.rs: verification without the cofactor.
use native.Mathlib.Nat.{mod-lt}
use ed301_eddsa.Base.{◌<◌, arith, ◌≡◌, ◌↔◌, sym, ap, ◌∙◌, true, some, ◌++◌}
use ed301_eddsa.Base.Bytes.{Bytes, IsBytes}
use ed301_eddsa.Base.Results.{ok}
use ed301_eddsa.Parameters.{scalar_modulus}
use ed301_eddsa.Libraries.Bigint.{Bigint}
use ed301_eddsa.Libraries.Xof.{Xof}
use ed301_eddsa.Scalar.{Scalar}
use ed301_eddsa.Edwards
use ed301_eddsa.Edwards.{EdwardsPoint}
use ed301_eddsa.Edwards.Decoded.{decode-IsDecoded}
use ed301_eddsa.Edwards.Group.{ct_eq_iff}
use ed301_eddsa.Edwards.Complete.Closed.{is_valid_iff}
use ed301_eddsa.Edwards.Affine.{Affine}
use ed301_eddsa.Edwards.Law.{sum, neutral}
use ed301_eddsa.Edwards.Law.Times.{times}
use ed301_eddsa.Edwards.Law.Refined.{
  Stands, Stands-OnAffine, affine, valid-Stands, add-Stands, double-Stands, scalar_mul-Stands,
}
use ed301_eddsa.Edwards.Law.Order.{basepoint-Stands}
use ed301_eddsa.Edwards.Law.Cyclic.{order-times}
use ed301_eddsa.Edwards.Law.Compared.{ct_eq-Stands, is_prime_subgroup-Stands}
use ed301_eddsa.Edwards.Law.Cofactor.{fourfold_times, cofactor_cancel, order-sum, order-multiple}
use ed301_eddsa.Signature.Wire.{Signature}
use ed301_eddsa.Signature.Wire
use ed301_eddsa.Signature.Wire.Parse.{from_bytes-IsParsed, parsed_canonical}
use ed301_eddsa.Signature.VerifyingKey.{VerifyingKey, from_bytes, verify}
use ed301_eddsa.Signature.VerifyingKey.Parse.{key_iff}
use ed301_eddsa.Signature.VerifyingKey.Equation.{hashed, verify_iff}

module _ ⦃b : Bigint⦄ where
  -- Points of order L with the same fourfold double compare as equal, and the other way round.
  cofactored-ct_eq :
      {p q : EdwardsPoint} {a c : Affine}
      → Stands p a
      → Stands q c
      → times scalar_modulus a ≡ neutral
      → times scalar_modulus c ≡ neutral
      → (Edwards.ct_eq (Edwards.double (Edwards.double p)) (Edwards.double (Edwards.double q))
          ≡ true)
        ↔ (Edwards.ct_eq p q ≡ true)
  cofactored-ct_eq {p} {q} {a} {c} h k ea ec =
      let four = ct_eq-Stands (double-Stands (double-Stands h)) (double-Stands (double-Stands k)) in
      let one = ct_eq-Stands h k in
      (
        λ e. one.1 (
            cofactor_cancel a c (Stands-OnAffine h) (Stands-OnAffine k) ea ec (
              sym (fourfold_times a (Stands-OnAffine h))
              ∙ four.0 e
              ∙ fourfold_times c (Stands-OnAffine k))),
        λ e. four.1 (ap (λ t. sum (sum t t) (sum t t)) (one.0 e)),
      )

  pub decoded-Stands :
      (bytes : Bytes) {p : EdwardsPoint} → Edwards.decode bytes ≡ some p → Stands p (affine p)
  decoded-Stands bytes {p} h = valid-Stands ((is_valid_iff p).0 (decode-IsDecoded bytes p h).valid)

module _ ⦃b : Bigint⦄ ⦃xof : Xof⦄ where
  -- For an accepted key and bytes that parse as a signature with its commitment in the prime
  -- subgroup, verification accepts exactly if [S] B and R + [k] A compare as equal, without the
  -- cofactor, with k the hash of R, A and the message modulo L.
  pub verify_cofactorless :
      (public_key message bytes : Bytes) (key : VerifyingKey) (s : Signature)
      → IsBytes bytes
      → from_bytes public_key ≡ ok key
      → Wire.from_bytes bytes ≡ ok s
      → Edwards.is_prime_subgroup s.commitment ≡ true
      → (verify key message s ≡ true) ↔ (
          Edwards.ct_eq (Edwards.scalar_mul Edwards.basepoint s.response) (
            Edwards.add s.commitment (
              Edwards.scalar_mul key.point
                (hashed (s.commitment_encoding ++ (key.encoded ++ message)))))
          ≡ true)
  verify_cofactorless public_key message bytes key s h accepted parses subgroup =
      let p = from_bytes-IsParsed parses in
      let k = (key_iff public_key key).0 accepted in
      let (same, on_curve, below, encodes, split) = parsed_canonical bytes s h parses in
      let r_stands = decoded-Stands _ p.commitment in
      let a_stands = decoded-Stands _ k.decodes in
      let a_order = (is_prime_subgroup-Stands a_stands).0 k.subgroup in
      let k_stands = scalar_mul-Stands challenge a_stands (omega (arith, challenge_below)) in
      let cofactored =
        cofactored-ct_eq (scalar_mul-Stands s.response basepoint-Stands (omega (arith, below)))
          (add-Stands r_stands k_stands) (order-times s.response)
          (order-sum _ _ (Stands-OnAffine r_stands) (Stands-OnAffine k_stands)
            ((is_prime_subgroup-Stands r_stands).0 subgroup)
            (order-multiple challenge _ (Stands-OnAffine a_stands) a_order)) in
      let equation = verify_iff key message s in
      (
        λ v. cofactored.0 ((ct_eq_iff _ _).1 (equation.0 v)),
        λ e. equation.1 ((ct_eq_iff _ _).0 (cofactored.1 e)),
      )
    where
      challenge : Scalar
      challenge = hashed (s.commitment_encoding ++ (key.encoded ++ message))

      challenge_below : challenge < scalar_modulus
      challenge_below = mod-lt _ (omega arith)
