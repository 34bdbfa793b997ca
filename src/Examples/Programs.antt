-- ===== src/Examples/Programs.antt =====
-- A run of the downstream program over plain arithmetic, and its theorem applied.
use ed301_eddsa.Base.{◌≡◌, refl, some, xor}
use ed301_eddsa.Base.Bytes.{le_bytes, IsBytes_of}
use ed301_eddsa.Base.Copies.{copy_into}
use ed301_eddsa.Base.Words.{words}
use ed301_eddsa.Libraries.Reference.Inverse.{inverse}
use ed301_eddsa.Libraries.Reference.Digests.{digest_in}
use ed301_eddsa.Field
use ed301_eddsa.Scalar
use ed301_eddsa.Edwards
use ed301_eddsa.SignatureHash
use ed301_eddsa.Signature.Wire
use ed301_eddsa.Signature.VerifyingKey
use ed301_eddsa.Signature.Expanded
use ed301_eddsa.Signature.Signing
use ed301_eddsa.Signature.OneShot
use ed301_eddsa.Downstream.{nibble, fill, hex_array, run_known_answer_check}
use ed301_eddsa.Downstream.Hex.{to_hex, hex_array-to_hex}
use ed301_eddsa.Examples.Vectors.{
  backend, hasher, signature, seed_hex, public_key_hex, signature_hex,
}

-- The program runs to its end on its constants.
program_passes : run_known_answer_check seed_hex public_key_hex signature_hex ≡ some tt
unfolding Field.zero_element Field.one_element Field.from_canonical_bytes Field.from_u64
    Field.from_canonical_uint Field.from_canonical_words Field.to_canonical_bytes Field.add
    Field.sub Field.neg Field.mul Field.square Field.invert Field.ct_eq Field.sqrt Field.is_odd
    Field.is_zero Field.conditional_swap Field.conditional_select Scalar.read_words
    Scalar.pruned_words Scalar.hash_words Scalar.write_words Scalar.uint_from_le38
    Scalar.from_canonical_bytes Scalar.radix_64 Scalar.reduce_from Scalar.reduce_words
    Scalar.reduce_pruned_le Scalar.reduce_hash_le Scalar.write_canonical_bytes
    Scalar.canonical_bytes Scalar.add Scalar.mul Scalar.bit Edwards.edwards_a Edwards.edwards_d
    Edwards.two Edwards.identity Edwards.basepoint Edwards.from_affine Edwards.add Edwards.double
    Edwards.negate Edwards.is_identity Edwards.multiply_by_cofactor Edwards.ct_eq Edwards.is_valid
    Edwards.conditional_select Edwards.encoded_bit Edwards.rounds_from Edwards.scalar_mul_with
    Edwards.scalar_mul Edwards.scalar_mul_encoded Edwards.scalar_mul_pruned
    Edwards.is_prime_subgroup Edwards.is_prime_subgroup_nonidentity Edwards.encode_inner
    Edwards.encode Edwards.encode_public_artifact Edwards.decode Edwards.decode_strict_subgroup
    SignatureHash.absorb_parts SignatureHash.hash_parts SignatureHash.expand_seed
    SignatureHash.nonce_hash SignatureHash.challenge_hash SignatureHash.hash_to_scalar
    Wire.from_bytes Wire.to_bytes VerifyingKey.from_bytes VerifyingKey.to_bytes VerifyingKey.verify
    Expanded.prune Expanded.prefix_of Expanded.derive Signing.assemble Signing.self_check
    Signing.sign_expanded Signing.from_seed Signing.verifying_key Signing.sign
    OneShot.validate_public_key OneShot.sign OneShot.verify le_bytes copy_into words inverse
    digest_in xor nibble fill hex_array run_known_answer_check
program_passes = refl

hex_array-to_hex_example : hex_array 76 (to_hex signature) ≡ some signature
hex_array-to_hex_example = hex_array-to_hex 76 signature (refl, IsBytes_of signature refl)
