-- ===== src/Edwards/Law/Published.antt =====
-- edwards.rs: the bytes of a point decode to a point that stands for the same affine point.
use ed301_eddsa.Base.{◌^◌, ◌<◌, ◌≡◌, sym, ◌∙◌, true, some, length}
use ed301_eddsa.Base.Bytes.{Bytes}
use ed301_eddsa.Parameters.{field_bits, field_bytes}
use ed301_eddsa.Libraries.Bigint.{Bigint}
use ed301_eddsa.Scalar.{Scalar}
use ed301_eddsa.Edwards.{
  EdwardsPoint, basepoint, scalar_mul, is_prime_subgroup, encode_public_artifact, decode,
}
use ed301_eddsa.Edwards.Affine.{Affine}
use ed301_eddsa.Edwards.Complete.Closed.{IsValid, is_valid_iff, scalar_mul-IsValid}
use ed301_eddsa.Edwards.Complete.Generator.{basepoint-IsValid}
use ed301_eddsa.Edwards.Encoded.{encode_eq_public, encode_public_artifact-IsArray}
use ed301_eddsa.Edwards.Recovered.{decode-encode}
use ed301_eddsa.Edwards.Law.Times.{times}
use ed301_eddsa.Edwards.Law.Refined.{Stands, valid-Stands, scalar_mul-Stands}
use ed301_eddsa.Edwards.Law.Order.{base, basepoint-Stands}
use ed301_eddsa.Edwards.Law.Cyclic.{order-times}
use ed301_eddsa.Edwards.Law.Compared.{ct_eq-Stands, is_prime_subgroup-Stands}

module _ ⦃b : Bigint⦄ where
  -- The point as bytes, and the point read back.
  pub record IsPublished (p : EdwardsPoint) (a : Affine) : Type 0 where
    pub bytes : Bytes
    pub recovered : EdwardsPoint
    pub encodes : encode_public_artifact p ≡ some bytes
    pub total : length bytes ≡ field_bytes
    pub decodes : decode bytes ≡ some recovered
    pub stands : Stands recovered a

  valid-IsPublished : {p : EdwardsPoint} {a : Affine} → IsValid p → Stands p a → IsPublished p a
  valid-IsPublished {p} {a} h k =
      let (bytes, q, encodes, decodes, valid, same) = decode-encode p ((is_valid_iff p).1 h) in
      let public_encodes = sym (encode_eq_public p) ∙ encodes in
      let q_stands = valid-Stands ((is_valid_iff q).0 valid) in
      record {
        bytes = bytes;
        recovered = q;
        encodes = public_encodes;
        total = (encode_public_artifact-IsArray p public_encodes).0;
        decodes = decodes;
        stands = rw ((ct_eq-Stands q_stands k).0 same) at q_stands;
      }

  pub multiple-IsPublished :
      (s : Scalar) → s < 2 ^ field_bits → IsPublished (scalar_mul basepoint s) (times s base)
  multiple-IsPublished s h =
      valid-IsPublished (scalar_mul-IsValid s basepoint-IsValid)
        (scalar_mul-Stands s basepoint-Stands h)

  -- A point that stands for a multiple of the base point is in the prime subgroup.
  pub multiple-is_prime_subgroup :
      {p : EdwardsPoint} (s : Scalar) → Stands p (times s base) → is_prime_subgroup p ≡ true
  multiple-is_prime_subgroup s h = (is_prime_subgroup-Stands h).1 (order-times s)
