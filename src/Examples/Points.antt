-- ===== src/Examples/Points.antt =====
-- Concrete points for the tests: the base point, and the key and the signature of the known answer.
use ed301_eddsa.Base.{take, ◌>>=◌, ◌≡◌, ◌≢◌, ◌∙◌, sym, refl, true, false, some, xor}
use ed301_eddsa.Base.Bytes.{le_bytes}
use ed301_eddsa.Base.Copies.{copy_into}
use ed301_eddsa.Libraries.Reference.Inverse.{inverse}
use mathlib.Core.Option
use mathlib.Core.Bool.{false≢true}
use ed301_eddsa.Field
use ed301_eddsa.Field.{FieldElement}
use ed301_eddsa.Field.Arith.{ct_eq_lem, is_zero_lem}
use ed301_eddsa.Edwards
use ed301_eddsa.Edwards.{basepoint}
use ed301_eddsa.Edwards.Affine.{Affine, Represents, IsSum, cross_term}
use ed301_eddsa.Edwards.OnCurve.{IsOnCurve}
use ed301_eddsa.Edwards.OnCurve.Valid.{is_valid→IsOnCurve}
use ed301_eddsa.Examples.Vectors.{backend, hasher, signature}

pub one_inverse : Field.mul basepoint.z Field.one_element ≡ Field.one_element
unfolding basepoint Field.mul Field.one_element
one_inverse = refl

pub basepoint_valid : Edwards.is_valid basepoint ≡ true
unfolding Field.zero_element Field.one_element Field.from_canonical_bytes Field.from_u64
    Field.from_canonical_uint Field.from_canonical_words Field.to_canonical_bytes Field.add
    Field.sub Field.neg Field.mul Field.square Field.invert Field.ct_eq Field.sqrt Field.is_odd
    Field.is_zero Field.conditional_swap Field.conditional_select Edwards.edwards_a
    Edwards.edwards_d Edwards.two Edwards.identity Edwards.basepoint Edwards.from_affine Edwards.add
    Edwards.double Edwards.negate Edwards.is_identity Edwards.multiply_by_cofactor Edwards.ct_eq
    Edwards.is_valid Edwards.conditional_select Edwards.encoded_bit Edwards.rounds_from
    Edwards.scalar_mul_with Edwards.scalar_mul Edwards.scalar_mul_encoded Edwards.scalar_mul_pruned
    Edwards.is_prime_subgroup Edwards.is_prime_subgroup_nonidentity Edwards.encode_inner
    Edwards.encode Edwards.encode_public_artifact Edwards.decode Edwards.decode_strict_subgroup
    le_bytes copy_into inverse xor
basepoint_valid = refl

pub basepoint-IsOnCurve : IsOnCurve basepoint
basepoint-IsOnCurve = is_valid→IsOnCurve basepoint Field.one_element one_inverse basepoint_valid

-- The base point in affine coordinates, and its double by the affine law.
abbrev pub affine_basepoint : Affine
affine_basepoint = record { u = basepoint.x; v = basepoint.y }

abbrev pub inverse_or_one : FieldElement → FieldElement
inverse_or_one x = Option.get_or (Field.invert x) Field.one_element

abbrev pub term : FieldElement
term = cross_term affine_basepoint affine_basepoint

abbrev pub affine_double : Affine
affine_double = record {
  u =
      Field.mul (Field.add (Field.mul basepoint.x basepoint.y) (Field.mul basepoint.y basepoint.x))
        (inverse_or_one (Field.add Field.one_element term));
  v =
      Field.mul
        (Field.sub (Field.mul basepoint.y basepoint.y)
          (Field.mul Edwards.edwards_a (Field.mul basepoint.x basepoint.x)))
        (inverse_or_one (Field.sub Field.one_element term));
}

pub basepoint-Represents : Represents basepoint affine_basepoint
unfolding Field.zero_element Field.one_element Field.from_canonical_bytes Field.from_u64
    Field.from_canonical_uint Field.from_canonical_words Field.to_canonical_bytes Field.add
    Field.sub Field.neg Field.mul Field.square Field.invert Field.ct_eq Field.sqrt Field.is_odd
    Field.is_zero Field.conditional_swap Field.conditional_select Edwards.edwards_a
    Edwards.edwards_d Edwards.two Edwards.identity Edwards.basepoint Edwards.from_affine Edwards.add
    Edwards.double Edwards.negate Edwards.is_identity Edwards.multiply_by_cofactor Edwards.ct_eq
    Edwards.is_valid Edwards.conditional_select Edwards.encoded_bit Edwards.rounds_from
    Edwards.scalar_mul_with Edwards.scalar_mul Edwards.scalar_mul_encoded Edwards.scalar_mul_pruned
    Edwards.is_prime_subgroup Edwards.is_prime_subgroup_nonidentity Edwards.encode_inner
    Edwards.encode Edwards.encode_public_artifact Edwards.decode Edwards.decode_strict_subgroup
    le_bytes copy_into inverse xor
basepoint-Represents = record {
  z_inverse = Field.one_element;
  unit = refl;
  x_coordinate = refl;
  y_coordinate = refl;
  t_coordinate = refl;
}

pub double-IsSum : IsSum affine_basepoint affine_basepoint affine_double
unfolding Field.zero_element Field.one_element Field.from_canonical_bytes Field.from_u64
    Field.from_canonical_uint Field.from_canonical_words Field.to_canonical_bytes Field.add
    Field.sub Field.neg Field.mul Field.square Field.invert Field.ct_eq Field.sqrt Field.is_odd
    Field.is_zero Field.conditional_swap Field.conditional_select Edwards.edwards_a
    Edwards.edwards_d Edwards.two Edwards.identity Edwards.basepoint Edwards.from_affine Edwards.add
    Edwards.double Edwards.negate Edwards.is_identity Edwards.multiply_by_cofactor Edwards.ct_eq
    Edwards.is_valid Edwards.conditional_select Edwards.encoded_bit Edwards.rounds_from
    Edwards.scalar_mul_with Edwards.scalar_mul Edwards.scalar_mul_encoded Edwards.scalar_mul_pruned
    Edwards.is_prime_subgroup Edwards.is_prime_subgroup_nonidentity Edwards.encode_inner
    Edwards.encode Edwards.encode_public_artifact Edwards.decode Edwards.decode_strict_subgroup
    le_bytes copy_into inverse xor
double-IsSum = record {
  plus_inverse = inverse_or_one (Field.add Field.one_element term);
  plus_unit = (ct_eq_lem _ _).0 refl;
  minus_inverse = inverse_or_one (Field.sub Field.one_element term);
  minus_unit = (ct_eq_lem _ _).0 refl;
  u_law = (ct_eq_lem _ _).0 refl;
  v_law = (ct_eq_lem _ _).0 refl;
}

-- A square with the root that the exponentiation finds, and an element that is not zero.
abbrev pub four : FieldElement
four = Option.get_or (Field.sqrt (Field.from_u64 4)) Field.one_element

root_of_four : Field.sqrt (Field.square four) ≡ some four
unfolding Field.zero_element Field.one_element Field.from_canonical_bytes Field.from_u64
    Field.from_canonical_uint Field.from_canonical_words Field.to_canonical_bytes Field.add
    Field.sub Field.neg Field.mul Field.square Field.invert Field.ct_eq Field.sqrt Field.is_odd
    Field.is_zero Field.conditional_swap Field.conditional_select Edwards.edwards_a
    Edwards.edwards_d Edwards.two Edwards.identity Edwards.basepoint Edwards.from_affine Edwards.add
    Edwards.double Edwards.negate Edwards.is_identity Edwards.multiply_by_cofactor Edwards.ct_eq
    Edwards.is_valid Edwards.conditional_select Edwards.encoded_bit Edwards.rounds_from
    Edwards.scalar_mul_with Edwards.scalar_mul Edwards.scalar_mul_encoded Edwards.scalar_mul_pruned
    Edwards.is_prime_subgroup Edwards.is_prime_subgroup_nonidentity Edwards.encode_inner
    Edwards.encode Edwards.encode_public_artifact Edwards.decode Edwards.decode_strict_subgroup
    le_bytes copy_into inverse xor
root_of_four = refl

two_is_not_zero : Field.is_zero (Field.from_u64 2) ≡ false
unfolding Field.zero_element Field.one_element Field.from_canonical_bytes Field.from_u64
    Field.from_canonical_uint Field.from_canonical_words Field.to_canonical_bytes Field.add
    Field.sub Field.neg Field.mul Field.square Field.invert Field.ct_eq Field.sqrt Field.is_odd
    Field.is_zero Field.conditional_swap Field.conditional_select Edwards.edwards_a
    Edwards.edwards_d Edwards.two Edwards.identity Edwards.basepoint Edwards.from_affine Edwards.add
    Edwards.double Edwards.negate Edwards.is_identity Edwards.multiply_by_cofactor Edwards.ct_eq
    Edwards.is_valid Edwards.conditional_select Edwards.encoded_bit Edwards.rounds_from
    Edwards.scalar_mul_with Edwards.scalar_mul Edwards.scalar_mul_encoded Edwards.scalar_mul_pruned
    Edwards.is_prime_subgroup Edwards.is_prime_subgroup_nonidentity Edwards.encode_inner
    Edwards.encode Edwards.encode_public_artifact Edwards.decode Edwards.decode_strict_subgroup
    le_bytes copy_into inverse xor
two_is_not_zero = refl

two_nonzero : Field.from_u64 2 ≢ Field.zero_element
two_nonzero h = false≢true (sym two_is_not_zero ∙ (is_zero_lem (Field.from_u64 2)).1 h)

-- The commitment of the signature is in the prime subgroup.
pub commitment_checked :
    (Edwards.decode (take 38 signature) >>= λ p. some (Edwards.is_prime_subgroup p)) ≡ some true
unfolding Field.zero_element Field.one_element Field.from_canonical_bytes Field.from_u64
    Field.from_canonical_uint Field.from_canonical_words Field.to_canonical_bytes Field.add
    Field.sub Field.neg Field.mul Field.square Field.invert Field.ct_eq Field.sqrt Field.is_odd
    Field.is_zero Field.conditional_swap Field.conditional_select Edwards.edwards_a
    Edwards.edwards_d Edwards.two Edwards.identity Edwards.basepoint Edwards.from_affine Edwards.add
    Edwards.double Edwards.negate Edwards.is_identity Edwards.multiply_by_cofactor Edwards.ct_eq
    Edwards.is_valid Edwards.conditional_select Edwards.encoded_bit Edwards.rounds_from
    Edwards.scalar_mul_with Edwards.scalar_mul Edwards.scalar_mul_encoded Edwards.scalar_mul_pruned
    Edwards.is_prime_subgroup Edwards.is_prime_subgroup_nonidentity Edwards.encode_inner
    Edwards.encode Edwards.encode_public_artifact Edwards.decode Edwards.decode_strict_subgroup
    le_bytes copy_into inverse xor
commitment_checked = refl
