-- ===== src/Examples/Curve.antt =====
-- The theorems on points, applied to the base point.
use ed301_eddsa.Base.{◌↔◌, some, ◌+◌, ◌*◌, ◌%◌, ◌^◌, arith, ◌≡◌, refl, true}
use ed301_eddsa.Base.Bytes.{Bytes, le_bytes, IsArray, IsBytes_of, le_value}
use ed301_eddsa.Parameters.{scalar_modulus}
use ed301_eddsa.Edwards
use ed301_eddsa.Edwards.{EdwardsPoint, basepoint, basepoint_encoding, identity}
use ed301_eddsa.Edwards.Affine.{double-Represents}
use ed301_eddsa.Edwards.Scaled.{IsScaled}
use ed301_eddsa.Edwards.Multiples.{multiple, scalar_mul-multiple}
use ed301_eddsa.Edwards.Complete.Closed.{operations-is_valid}
use ed301_eddsa.Edwards.Recovered.{decode-encode}
use ed301_eddsa.Edwards.Law.{sum, neutral, opposite}
use ed301_eddsa.Edwards.Law.Times.{times}
use ed301_eddsa.Edwards.Law.Refined.{Stands, scalar_mul-Stands, operations-Stands}
use ed301_eddsa.Edwards.Law.Order.{base, basepoint-Stands}
use ed301_eddsa.Edwards.Law.Points.{add_assoc, scalar_mul_laws, basepoint_order}
use ed301_eddsa.Edwards.Compare.{encode-affine, ct_eq-affine}
use ed301_eddsa.Edwards.Bits.{scalar_mul_encoded_lem}
use ed301_eddsa.Examples.Vectors.{backend, public_key}
use ed301_eddsa.Examples.Points.{
  basepoint_valid, basepoint-IsOnCurve, affine_basepoint, affine_double, basepoint-Represents,
  double-IsSum,
}

public_key-IsArray : IsArray 38 public_key
public_key-IsArray = (refl, IsBytes_of public_key refl)

scalar_mul_encoded_lem_example :
    Edwards.scalar_mul_encoded basepoint public_key
    ≡ Edwards.scalar_mul basepoint (le_value public_key)
scalar_mul_encoded_lem_example = scalar_mul_encoded_lem basepoint public_key public_key-IsArray

scalar_mul-multiple_example : IsScaled (multiple 3 basepoint 5) (Edwards.scalar_mul basepoint 5)
scalar_mul-multiple_example = scalar_mul-multiple basepoint 3 5 (omega arith) (omega arith)

encode-affine_example :
    Edwards.encode basepoint
    ≡ some (
        le_bytes 38 (
          backend.field_form.retrieve affine_basepoint.v
          + 2 ^ 303 * (backend.field_form.retrieve affine_basepoint.u % 2)))
encode-affine_example = encode-affine basepoint_valid basepoint-Represents

ct_eq-affine_example :
    (Edwards.ct_eq basepoint (Edwards.double basepoint) ≡ true)
    ↔ ((affine_basepoint.u ≡ affine_double.u) × (affine_basepoint.v ≡ affine_double.v))
ct_eq-affine_example =
    ct_eq-affine basepoint-Represents
      (double-Represents basepoint-IsOnCurve basepoint-Represents double-IsSum)

scalar_mul-Stands_example : Stands (Edwards.scalar_mul basepoint 5) (times 5 base)
scalar_mul-Stands_example = scalar_mul-Stands 5 basepoint-Stands (omega arith)

operations-Stands_example :
    Stands identity neutral
    × Stands (Edwards.add basepoint basepoint) (sum base base)
    × Stands (Edwards.double basepoint) (sum base base)
    × Stands (Edwards.negate basepoint) (opposite base)
    × Stands (Edwards.multiply_by_cofactor basepoint) (sum (sum base base) (sum base base))
operations-Stands_example = operations-Stands basepoint-Stands basepoint-Stands

decode-encode_example :
    (bs : Bytes) × (q : EdwardsPoint) × (Edwards.encode basepoint ≡ some bs)
    × (Edwards.decode bs ≡ some q)
    × (Edwards.is_valid q ≡ true)
    × (Edwards.ct_eq q basepoint ≡ true)
decode-encode_example = decode-encode basepoint basepoint_valid

operations-is_valid_example :
    (Edwards.is_valid (Edwards.add basepoint basepoint) ≡ true)
    × (Edwards.is_valid (Edwards.double basepoint) ≡ true)
    × (Edwards.is_valid (Edwards.negate basepoint) ≡ true)
    × (Edwards.is_valid (Edwards.multiply_by_cofactor basepoint) ≡ true)
    × (Edwards.is_valid (Edwards.scalar_mul basepoint 5) ≡ true)
    × (Edwards.is_valid (Edwards.scalar_mul_encoded basepoint public_key) ≡ true)
operations-is_valid_example =
    operations-is_valid basepoint basepoint 5 public_key basepoint_valid basepoint_valid

add_assoc_example :
    Edwards.ct_eq
      (Edwards.add (Edwards.add basepoint basepoint) basepoint)
      (Edwards.add basepoint (Edwards.add basepoint basepoint))
    ≡ true
add_assoc_example =
    add_assoc basepoint basepoint basepoint basepoint_valid basepoint_valid basepoint_valid

scalar_mul_laws_example :
    (Edwards.ct_eq
        (Edwards.scalar_mul basepoint (5 + 6))
        (Edwards.add (Edwards.scalar_mul basepoint 5) (Edwards.scalar_mul basepoint 6))
      ≡ true)
    × (Edwards.ct_eq
          (Edwards.scalar_mul basepoint (5 * 6))
          (Edwards.scalar_mul (Edwards.scalar_mul basepoint 6) 5)
        ≡ true)
scalar_mul_laws_example =
    scalar_mul_laws basepoint 5 6 basepoint_valid (omega arith) (omega arith) (omega arith)
      (omega arith)

basepoint_order_example :
    (Edwards.is_identity (Edwards.scalar_mul basepoint (2 * scalar_modulus)) ≡ true)
    ↔ (2 * scalar_modulus % scalar_modulus ≡ 0)
basepoint_order_example = basepoint_order (2 * scalar_modulus) (omega arith)
