-- ===== src/Edwards/UnitTests.antt =====
-- edwards.rs: the unit tests in the file, but for the one that counts the rounds. A test is true
-- where it passes. The file has its own copy of the hexadecimal reader of the tests of field.rs.
use ed301_eddsa.Base.{ℕ, ◌-◌, Bool, not, ◌&&◌, Option, replicate, get_or, set, bit_or}
use ed301_eddsa.Base.Bytes.{Bytes}
use ed301_eddsa.Base.Text.{codes, same_bytes}
use ed301_eddsa.Parameters.{field_bytes}
use ed301_eddsa.Libraries.Bigint.{Bigint}
use ed301_eddsa.Field.UnitTests.{hex_le_38, is_none, expecting}
use ed301_eddsa.Scalar
use ed301_eddsa.Scalar.{zero_scalar, one_scalar}
use ed301_eddsa.Edwards.{
  EdwardsPoint, basepoint_encoding, prime_order_bytes, identity, basepoint, add, double, negate,
  is_identity, ct_eq, is_valid, scalar_mul, scalar_mul_encoded, scalar_mul_pruned,
  is_prime_subgroup_nonidentity, encode, decode, decode_strict_subgroup,
}

abbrev scalar_12345 : Option Bytes
scalar_12345 =
    hex_le_38 (codes "3930000000000000000000000000000000000000000000000000000000000000000000000000")

abbrev multiple_12345_encoding : Option Bytes
multiple_12345_encoding =
    hex_le_38 (codes "9ffa3fbe41c0ee7def76269467f7702cbe30ed930021f90ee241b5b1bdc34a6af128f51db512")

abbrev draft00_pruned_secret : Option Bytes
draft00_pruned_secret =
    hex_le_38 (codes "686d13326b81a70d3bb299eb137d475b59ddee671f92cdd334883fe6d784fc03813c2542a119")

abbrev draft00_public_encoding : Option Bytes
draft00_public_encoding =
    hex_le_38 (codes "8cad07b4f9a308523a8df9bee22a721b8ff5e597c1ce47e39df67f97a475fd018013fc188890")

abbrev draft00_nonce_scalar : Option Bytes
draft00_nonce_scalar =
    hex_le_38 (codes "a3c7355a9c1ea903bc4fef22588ce6b75c292ccea514dbe689bacf7e3b3ca64449c9983cbd05")

abbrev draft00_commitment_encoding : Option Bytes
draft00_commitment_encoding =
    hex_le_38 (codes "2964a4e22d5ed6e41ad5d5bbfdf4d518bb067b8982f3f8f5900d074a6bee97567b9581033694")

abbrev field_modulus_encoding : Option Bytes
field_modulus_encoding =
    hex_le_38 (codes "b30300000000000000000000f8ffffffffffffffffffffffffffffffffffffffffffffffff1f")

abbrev order_two_encoding : Option Bytes
order_two_encoding =
    hex_le_38 (codes "b20300000000000000000000f8ffffffffffffffffffffffffffffffffffffffffffffffff1f")

module _ ⦃b : Bigint⦄ where
  -- `assert_eq!(point.encode(), Ok(bytes))`.
  encodes_as : EdwardsPoint → Bytes → Bool
  encodes_as point bytes = expecting (encode point) λ encoded. same_bytes encoded bytes

  -- `scalar(bytes)`, or the end of the test.
  with_scalar : Bytes → (Scalar.Scalar → Bool) → Bool
  with_scalar bytes rest = expecting (Scalar.from_canonical_bytes bytes) rest

  -- The array with a first byte.
  first_byte : ℕ → Bytes
  first_byte value = set (replicate field_bytes 0) 0 value

  unfoldable pub basepoint_constant_roundtrips_and_has_exact_prime_order : Bool
  unfolding encodes_as
  basepoint_constant_roundtrips_and_has_exact_prime_order =
      is_valid basepoint
      && (encodes_as basepoint basepoint_encoding
          && (expecting (decode_strict_subgroup basepoint_encoding)
                (λ decoded. ct_eq decoded basepoint)
              && is_identity (scalar_mul_encoded basepoint prime_order_bytes)))

  unfoldable pub complete_group_formulas_cover_identity_negation_and_doubling : Bool
  unfolding with_scalar first_byte
  complete_group_formulas_cover_identity_negation_and_doubling =
      let base = basepoint in
      ct_eq (add base identity) base
      && (ct_eq (add identity base) base
          && (is_identity (add base (negate base))
              && (ct_eq (double base) (add base base)
                  && (is_identity (scalar_mul base zero_scalar)
                      && (ct_eq (scalar_mul base one_scalar) base
                          && with_scalar (first_byte 2)
                              λ two. ct_eq (scalar_mul base two) (double base))))))

  unfoldable pub fixed_12345_multiple_matches_the_curve_reference : Bool
  unfolding with_scalar encodes_as
  fixed_12345_multiple_matches_the_curve_reference = expecting scalar_12345 λ bytes.
      expecting multiple_12345_encoding λ expected. with_scalar bytes λ s.
        let multiple = scalar_mul basepoint s in
        encodes_as multiple expected && is_prime_subgroup_nonidentity multiple

  -- The loop body of the next test.
  strictly_recoded : Bytes → Bool
  unfolding encodes_as
  strictly_recoded encoded =
      expecting (decode_strict_subgroup encoded) λ decoded. encodes_as decoded encoded

  unfoldable pub draft00_vector_points_match_scalar_multiplication : Bool
  unfolding with_scalar encodes_as strictly_recoded
  draft00_vector_points_match_scalar_multiplication = expecting draft00_pruned_secret λ pruned.
      expecting draft00_nonce_scalar λ nonce. expecting draft00_public_encoding λ public_encoding.
        expecting draft00_commitment_encoding λ commitment_encoding. with_scalar nonce λ s.
          encodes_as (scalar_mul_pruned basepoint pruned) public_encoding
          && (encodes_as (scalar_mul basepoint s) commitment_encoding
              && (strictly_recoded public_encoding && strictly_recoded commitment_encoding))

  unfoldable pub strict_decoding_rejects_identity_torsion_and_mixed_order : Bool
  unfolding first_byte
  strict_decoding_rejects_identity_torsion_and_mixed_order =
      expecting (decode (first_byte 1)) λ identity. expecting order_two_encoding λ order_two_bytes.
        expecting (decode order_two_bytes) λ order_two.
          expecting (encode (add basepoint order_two)) λ mixed_encoding.
            is_identity identity
            && (is_none (decode_strict_subgroup (first_byte 1))
                && (is_none (decode_strict_subgroup order_two_bytes)
                    && (not (is_none (decode mixed_encoding))
                        && is_none (decode_strict_subgroup mixed_encoding))))

  -- The encoding of the base point with more bits of the last byte set.
  reserved : ℕ → Bytes
  reserved bits =
      set basepoint_encoding (field_bytes - 1)
        (bit_or (get_or basepoint_encoding (field_bytes - 1) 0) bits)

  unfoldable pub decoding_rejects_noncanonical_and_nonpoint_encodings : Bool
  unfolding first_byte reserved
  decoding_rejects_noncanonical_and_nonpoint_encodings =
      is_none (decode (reserved 0x20))
      && (is_none (decode (reserved 0x40))
          && (expecting field_modulus_encoding (λ bytes. is_none (decode bytes))
              && (is_none (decode (first_byte 3))
                  && is_none (decode (set (first_byte 1) (field_bytes - 1) 0x80)))))
