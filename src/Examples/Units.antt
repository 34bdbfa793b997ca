-- ===== src/Examples/Units.antt =====
-- The unit tests of field.rs and edwards.rs, run over plain arithmetic.
use ed301_eddsa.Base.{◌≡◌, refl, true, xor}
use ed301_eddsa.Base.Bytes.{le_bytes}
use ed301_eddsa.Base.Copies.{copy_into}
use ed301_eddsa.Libraries.Reference.Inverse.{inverse}
use ed301_eddsa.Field
use ed301_eddsa.Field.UnitTests
use ed301_eddsa.Scalar
use ed301_eddsa.Edwards
use ed301_eddsa.Edwards.UnitTests as CurveTests
use ed301_eddsa.Examples.Vectors.{backend}

field_tests_pass :
    (UnitTests.strict_decode_accepts_boundaries_and_basepoint_u ≡ true)
    × (UnitTests.strict_decode_rejects_modulus_and_reserved_bits ≡ true)
    × (UnitTests.arithmetic_reduces_modulo_p ≡ true)
    × (UnitTests.inversion_is_total_only_for_nonzero_values ≡ true)
    × (UnitTests.conditional_swap_obeys_choice ≡ true)
    × (UnitTests.square_root_is_verified_and_canonical_parity_is_reported ≡ true)
    × (UnitTests.conditional_selection_obeys_choice ≡ true)
unfolding Field.zero_element Field.one_element Field.from_canonical_bytes Field.from_u64
    Field.from_canonical_uint Field.from_canonical_words Field.to_canonical_bytes Field.add
    Field.sub Field.neg Field.mul Field.square Field.invert Field.ct_eq Field.sqrt Field.is_odd
    Field.is_zero Field.conditional_swap Field.conditional_select UnitTests.hex_nibble
    UnitTests.hex_le_from UnitTests.hex_le_38 UnitTests.le38
    UnitTests.strict_decode_accepts_boundaries_and_basepoint_u
    UnitTests.strict_decode_rejects_modulus_and_reserved_bits UnitTests.arithmetic_reduces_modulo_p
    UnitTests.inversion_is_total_only_for_nonzero_values UnitTests.conditional_swap_obeys_choice
    UnitTests.square_root_is_verified_and_canonical_parity_is_reported
    UnitTests.conditional_selection_obeys_choice le_bytes copy_into inverse
field_tests_pass = (refl, refl, refl, refl, refl, refl, refl)

curve_tests_pass :
    (CurveTests.basepoint_constant_roundtrips_and_has_exact_prime_order ≡ true)
    × (CurveTests.complete_group_formulas_cover_identity_negation_and_doubling ≡ true)
    × (CurveTests.fixed_12345_multiple_matches_the_curve_reference ≡ true)
    × (CurveTests.draft00_vector_points_match_scalar_multiplication ≡ true)
    × (CurveTests.strict_decoding_rejects_identity_torsion_and_mixed_order ≡ true)
    × (CurveTests.decoding_rejects_noncanonical_and_nonpoint_encodings ≡ true)
unfolding Field.zero_element Field.one_element Field.from_canonical_bytes Field.from_u64
    Field.from_canonical_uint Field.from_canonical_words Field.to_canonical_bytes Field.add
    Field.sub Field.neg Field.mul Field.square Field.invert Field.ct_eq Field.sqrt Field.is_odd
    Field.is_zero Field.conditional_swap Field.conditional_select Edwards.edwards_a
    Edwards.edwards_d Edwards.two Edwards.identity Edwards.basepoint Edwards.from_affine Edwards.add
    Edwards.double Edwards.negate Edwards.is_identity Edwards.multiply_by_cofactor Edwards.ct_eq
    Edwards.is_valid Edwards.conditional_select Edwards.encoded_bit Edwards.rounds_from
    Edwards.scalar_mul_with Edwards.scalar_mul Edwards.scalar_mul_encoded Edwards.scalar_mul_pruned
    Edwards.is_prime_subgroup Edwards.is_prime_subgroup_nonidentity Edwards.encode_inner
    Edwards.encode Edwards.encode_public_artifact Edwards.decode Edwards.decode_strict_subgroup
    le_bytes copy_into inverse xor Scalar.from_canonical_bytes Scalar.uint_from_le38 Scalar.bit
    UnitTests.hex_nibble UnitTests.hex_le_from UnitTests.hex_le_38
    CurveTests.basepoint_constant_roundtrips_and_has_exact_prime_order
    CurveTests.complete_group_formulas_cover_identity_negation_and_doubling
    CurveTests.fixed_12345_multiple_matches_the_curve_reference
    CurveTests.draft00_vector_points_match_scalar_multiplication
    CurveTests.strict_decoding_rejects_identity_torsion_and_mixed_order
    CurveTests.decoding_rejects_noncanonical_and_nonpoint_encodings
curve_tests_pass = (refl, refl, refl, refl, refl, refl)
