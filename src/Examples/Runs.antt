-- ===== src/Examples/Runs.antt =====
-- Runs of the model over plain arithmetic, on the second known answer.
use ed301_eddsa.Base.{◌≡◌, refl, true, xor, drop}
use ed301_eddsa.Base.Results.{ok, err}
use ed301_eddsa.Base.Bytes.{le_bytes}
use ed301_eddsa.Base.Copies.{copy_into}
use ed301_eddsa.Base.Words.{words}
use ed301_eddsa.Libraries.Reference.Inverse.{inverse}
use ed301_eddsa.Libraries.Reference.Digests.{digest_in}
use ed301_eddsa.Field
use ed301_eddsa.Scalar
use ed301_eddsa.Edwards
use ed301_eddsa.SignatureHash
use ed301_eddsa.Signature.Error.{invalid_seed_length, invalid_public_key, invalid_signature}
use ed301_eddsa.Signature.Wire
use ed301_eddsa.Signature.VerifyingKey
use ed301_eddsa.Signature.Expanded
use ed301_eddsa.Signature.Signing
use ed301_eddsa.Signature.OneShot
use ed301_eddsa.Examples.Vectors.{backend, hasher, seed, message, public_key, signature, short}

pub signs : OneShot.sign seed message ≡ ok signature
unfolding Field.zero_element Field.one_element Field.from_canonical_bytes Field.from_u64
    Field.from_canonical_uint Field.from_canonical_words Field.to_canonical_bytes Field.add
    Field.sub Field.neg Field.mul Field.square Field.invert Field.ct_eq Field.sqrt Field.is_odd
    Field.is_zero Field.conditional_swap Field.conditional_select Scalar.read_words
    Scalar.pruned_words Scalar.hash_words Scalar.write_words Scalar.uint_from_le38
    Scalar.from_canonical_bytes Scalar.radix_64 Scalar.reduce_from Scalar.reduce_words
    Scalar.reduce_pruned_le Scalar.reduce_hash_le Scalar.write_canonical_bytes
    Scalar.canonical_bytes Scalar.add Scalar.mul Scalar.bit Edwards.edwards_a Edwards.edwards_d
    Edwards.two Edwards.identity Edwards.basepoint Edwards.from_affine Edwards.add Edwards.double
    Edwards.negate Edwards.is_identity Edwards.multiply_by_cofactor Edwards.ct_eq Edwards.is_valid
    Edwards.conditional_select Edwards.encoded_bit Edwards.rounds_from Edwards.scalar_mul_with
    Edwards.scalar_mul Edwards.scalar_mul_encoded Edwards.scalar_mul_pruned
    Edwards.is_prime_subgroup Edwards.is_prime_subgroup_nonidentity Edwards.encode_inner
    Edwards.encode Edwards.encode_public_artifact Edwards.decode Edwards.decode_strict_subgroup
    SignatureHash.absorb_parts SignatureHash.hash_parts SignatureHash.expand_seed
    SignatureHash.nonce_hash SignatureHash.challenge_hash SignatureHash.hash_to_scalar
    Wire.from_bytes Wire.to_bytes VerifyingKey.from_bytes VerifyingKey.to_bytes VerifyingKey.verify
    Expanded.prune Expanded.prefix_of Expanded.derive Signing.assemble Signing.self_check
    Signing.sign_expanded Signing.from_seed Signing.verifying_key Signing.sign
    OneShot.validate_public_key OneShot.sign OneShot.verify le_bytes copy_into words inverse
    digest_in xor
signs = refl

pub verifies : OneShot.verify public_key message signature ≡ true
unfolding Field.zero_element Field.one_element Field.from_canonical_bytes Field.from_u64
    Field.from_canonical_uint Field.from_canonical_words Field.to_canonical_bytes Field.add
    Field.sub Field.neg Field.mul Field.square Field.invert Field.ct_eq Field.sqrt Field.is_odd
    Field.is_zero Field.conditional_swap Field.conditional_select Scalar.read_words
    Scalar.pruned_words Scalar.hash_words Scalar.write_words Scalar.uint_from_le38
    Scalar.from_canonical_bytes Scalar.radix_64 Scalar.reduce_from Scalar.reduce_words
    Scalar.reduce_pruned_le Scalar.reduce_hash_le Scalar.write_canonical_bytes
    Scalar.canonical_bytes Scalar.add Scalar.mul Scalar.bit Edwards.edwards_a Edwards.edwards_d
    Edwards.two Edwards.identity Edwards.basepoint Edwards.from_affine Edwards.add Edwards.double
    Edwards.negate Edwards.is_identity Edwards.multiply_by_cofactor Edwards.ct_eq Edwards.is_valid
    Edwards.conditional_select Edwards.encoded_bit Edwards.rounds_from Edwards.scalar_mul_with
    Edwards.scalar_mul Edwards.scalar_mul_encoded Edwards.scalar_mul_pruned
    Edwards.is_prime_subgroup Edwards.is_prime_subgroup_nonidentity Edwards.encode_inner
    Edwards.encode Edwards.encode_public_artifact Edwards.decode Edwards.decode_strict_subgroup
    SignatureHash.absorb_parts SignatureHash.hash_parts SignatureHash.expand_seed
    SignatureHash.nonce_hash SignatureHash.challenge_hash SignatureHash.hash_to_scalar
    Wire.from_bytes Wire.to_bytes VerifyingKey.from_bytes VerifyingKey.to_bytes VerifyingKey.verify
    Expanded.prune Expanded.prefix_of Expanded.derive Signing.assemble Signing.self_check
    Signing.sign_expanded Signing.from_seed Signing.verifying_key Signing.sign
    OneShot.validate_public_key OneShot.sign OneShot.verify le_bytes copy_into words inverse
    digest_in xor
verifies = refl

key_is_valid : OneShot.validate_public_key public_key ≡ true
unfolding Field.zero_element Field.one_element Field.from_canonical_bytes Field.from_u64
    Field.from_canonical_uint Field.from_canonical_words Field.to_canonical_bytes Field.add
    Field.sub Field.neg Field.mul Field.square Field.invert Field.ct_eq Field.sqrt Field.is_odd
    Field.is_zero Field.conditional_swap Field.conditional_select Scalar.read_words
    Scalar.pruned_words Scalar.hash_words Scalar.write_words Scalar.uint_from_le38
    Scalar.from_canonical_bytes Scalar.radix_64 Scalar.reduce_from Scalar.reduce_words
    Scalar.reduce_pruned_le Scalar.reduce_hash_le Scalar.write_canonical_bytes
    Scalar.canonical_bytes Scalar.add Scalar.mul Scalar.bit Edwards.edwards_a Edwards.edwards_d
    Edwards.two Edwards.identity Edwards.basepoint Edwards.from_affine Edwards.add Edwards.double
    Edwards.negate Edwards.is_identity Edwards.multiply_by_cofactor Edwards.ct_eq Edwards.is_valid
    Edwards.conditional_select Edwards.encoded_bit Edwards.rounds_from Edwards.scalar_mul_with
    Edwards.scalar_mul Edwards.scalar_mul_encoded Edwards.scalar_mul_pruned
    Edwards.is_prime_subgroup Edwards.is_prime_subgroup_nonidentity Edwards.encode_inner
    Edwards.encode Edwards.encode_public_artifact Edwards.decode Edwards.decode_strict_subgroup
    SignatureHash.absorb_parts SignatureHash.hash_parts SignatureHash.expand_seed
    SignatureHash.nonce_hash SignatureHash.challenge_hash SignatureHash.hash_to_scalar
    Wire.from_bytes Wire.to_bytes VerifyingKey.from_bytes VerifyingKey.to_bytes VerifyingKey.verify
    Expanded.prune Expanded.prefix_of Expanded.derive Signing.assemble Signing.self_check
    Signing.sign_expanded Signing.from_seed Signing.verifying_key Signing.sign
    OneShot.validate_public_key OneShot.sign OneShot.verify le_bytes copy_into words inverse
    digest_in xor
key_is_valid = refl

short_seed : OneShot.sign short message ≡ err invalid_seed_length
unfolding Field.zero_element Field.one_element Field.from_canonical_bytes Field.from_u64
    Field.from_canonical_uint Field.from_canonical_words Field.to_canonical_bytes Field.add
    Field.sub Field.neg Field.mul Field.square Field.invert Field.ct_eq Field.sqrt Field.is_odd
    Field.is_zero Field.conditional_swap Field.conditional_select Scalar.read_words
    Scalar.pruned_words Scalar.hash_words Scalar.write_words Scalar.uint_from_le38
    Scalar.from_canonical_bytes Scalar.radix_64 Scalar.reduce_from Scalar.reduce_words
    Scalar.reduce_pruned_le Scalar.reduce_hash_le Scalar.write_canonical_bytes
    Scalar.canonical_bytes Scalar.add Scalar.mul Scalar.bit Edwards.edwards_a Edwards.edwards_d
    Edwards.two Edwards.identity Edwards.basepoint Edwards.from_affine Edwards.add Edwards.double
    Edwards.negate Edwards.is_identity Edwards.multiply_by_cofactor Edwards.ct_eq Edwards.is_valid
    Edwards.conditional_select Edwards.encoded_bit Edwards.rounds_from Edwards.scalar_mul_with
    Edwards.scalar_mul Edwards.scalar_mul_encoded Edwards.scalar_mul_pruned
    Edwards.is_prime_subgroup Edwards.is_prime_subgroup_nonidentity Edwards.encode_inner
    Edwards.encode Edwards.encode_public_artifact Edwards.decode Edwards.decode_strict_subgroup
    SignatureHash.absorb_parts SignatureHash.hash_parts SignatureHash.expand_seed
    SignatureHash.nonce_hash SignatureHash.challenge_hash SignatureHash.hash_to_scalar
    Wire.from_bytes Wire.to_bytes VerifyingKey.from_bytes VerifyingKey.to_bytes VerifyingKey.verify
    Expanded.prune Expanded.prefix_of Expanded.derive Signing.assemble Signing.self_check
    Signing.sign_expanded Signing.from_seed Signing.verifying_key Signing.sign
    OneShot.validate_public_key OneShot.sign OneShot.verify le_bytes copy_into words inverse
    digest_in xor
short_seed = refl

short_key : VerifyingKey.from_bytes short ≡ err invalid_public_key
unfolding Field.zero_element Field.one_element Field.from_canonical_bytes Field.from_u64
    Field.from_canonical_uint Field.from_canonical_words Field.to_canonical_bytes Field.add
    Field.sub Field.neg Field.mul Field.square Field.invert Field.ct_eq Field.sqrt Field.is_odd
    Field.is_zero Field.conditional_swap Field.conditional_select Scalar.read_words
    Scalar.pruned_words Scalar.hash_words Scalar.write_words Scalar.uint_from_le38
    Scalar.from_canonical_bytes Scalar.radix_64 Scalar.reduce_from Scalar.reduce_words
    Scalar.reduce_pruned_le Scalar.reduce_hash_le Scalar.write_canonical_bytes
    Scalar.canonical_bytes Scalar.add Scalar.mul Scalar.bit Edwards.edwards_a Edwards.edwards_d
    Edwards.two Edwards.identity Edwards.basepoint Edwards.from_affine Edwards.add Edwards.double
    Edwards.negate Edwards.is_identity Edwards.multiply_by_cofactor Edwards.ct_eq Edwards.is_valid
    Edwards.conditional_select Edwards.encoded_bit Edwards.rounds_from Edwards.scalar_mul_with
    Edwards.scalar_mul Edwards.scalar_mul_encoded Edwards.scalar_mul_pruned
    Edwards.is_prime_subgroup Edwards.is_prime_subgroup_nonidentity Edwards.encode_inner
    Edwards.encode Edwards.encode_public_artifact Edwards.decode Edwards.decode_strict_subgroup
    SignatureHash.absorb_parts SignatureHash.hash_parts SignatureHash.expand_seed
    SignatureHash.nonce_hash SignatureHash.challenge_hash SignatureHash.hash_to_scalar
    Wire.from_bytes Wire.to_bytes VerifyingKey.from_bytes VerifyingKey.to_bytes VerifyingKey.verify
    Expanded.prune Expanded.prefix_of Expanded.derive Signing.assemble Signing.self_check
    Signing.sign_expanded Signing.from_seed Signing.verifying_key Signing.sign
    OneShot.validate_public_key OneShot.sign OneShot.verify le_bytes copy_into words inverse
    digest_in xor
short_key = refl

short_signature : Wire.from_bytes short ≡ err invalid_signature
unfolding Field.zero_element Field.one_element Field.from_canonical_bytes Field.from_u64
    Field.from_canonical_uint Field.from_canonical_words Field.to_canonical_bytes Field.add
    Field.sub Field.neg Field.mul Field.square Field.invert Field.ct_eq Field.sqrt Field.is_odd
    Field.is_zero Field.conditional_swap Field.conditional_select Scalar.read_words
    Scalar.pruned_words Scalar.hash_words Scalar.write_words Scalar.uint_from_le38
    Scalar.from_canonical_bytes Scalar.radix_64 Scalar.reduce_from Scalar.reduce_words
    Scalar.reduce_pruned_le Scalar.reduce_hash_le Scalar.write_canonical_bytes
    Scalar.canonical_bytes Scalar.add Scalar.mul Scalar.bit Edwards.edwards_a Edwards.edwards_d
    Edwards.two Edwards.identity Edwards.basepoint Edwards.from_affine Edwards.add Edwards.double
    Edwards.negate Edwards.is_identity Edwards.multiply_by_cofactor Edwards.ct_eq Edwards.is_valid
    Edwards.conditional_select Edwards.encoded_bit Edwards.rounds_from Edwards.scalar_mul_with
    Edwards.scalar_mul Edwards.scalar_mul_encoded Edwards.scalar_mul_pruned
    Edwards.is_prime_subgroup Edwards.is_prime_subgroup_nonidentity Edwards.encode_inner
    Edwards.encode Edwards.encode_public_artifact Edwards.decode Edwards.decode_strict_subgroup
    SignatureHash.absorb_parts SignatureHash.hash_parts SignatureHash.expand_seed
    SignatureHash.nonce_hash SignatureHash.challenge_hash SignatureHash.hash_to_scalar
    Wire.from_bytes Wire.to_bytes VerifyingKey.from_bytes VerifyingKey.to_bytes VerifyingKey.verify
    Expanded.prune Expanded.prefix_of Expanded.derive Signing.assemble Signing.self_check
    Signing.sign_expanded Signing.from_seed Signing.verifying_key Signing.sign
    OneShot.validate_public_key OneShot.sign OneShot.verify le_bytes copy_into words inverse
    digest_in xor
short_signature = refl

-- What the seed expands to.
abbrev pub expanded : Expanded.ExpandedSecret
expanded = record {
  reduced_scalar = Scalar.reduce_pruned_le (Expanded.prune (SignatureHash.expand_seed seed));
  prefix = drop 38 (SignatureHash.expand_seed seed);
  public_key = public_key;
}

pub derives : Expanded.derive seed ≡ ok expanded
unfolding Field.zero_element Field.one_element Field.from_canonical_bytes Field.from_u64
    Field.from_canonical_uint Field.from_canonical_words Field.to_canonical_bytes Field.add
    Field.sub Field.neg Field.mul Field.square Field.invert Field.ct_eq Field.sqrt Field.is_odd
    Field.is_zero Field.conditional_swap Field.conditional_select Scalar.read_words
    Scalar.pruned_words Scalar.hash_words Scalar.write_words Scalar.uint_from_le38
    Scalar.from_canonical_bytes Scalar.radix_64 Scalar.reduce_from Scalar.reduce_words
    Scalar.reduce_pruned_le Scalar.reduce_hash_le Scalar.write_canonical_bytes
    Scalar.canonical_bytes Scalar.add Scalar.mul Scalar.bit Edwards.edwards_a Edwards.edwards_d
    Edwards.two Edwards.identity Edwards.basepoint Edwards.from_affine Edwards.add Edwards.double
    Edwards.negate Edwards.is_identity Edwards.multiply_by_cofactor Edwards.ct_eq Edwards.is_valid
    Edwards.conditional_select Edwards.encoded_bit Edwards.rounds_from Edwards.scalar_mul_with
    Edwards.scalar_mul Edwards.scalar_mul_encoded Edwards.scalar_mul_pruned
    Edwards.is_prime_subgroup Edwards.is_prime_subgroup_nonidentity Edwards.encode_inner
    Edwards.encode Edwards.encode_public_artifact Edwards.decode Edwards.decode_strict_subgroup
    SignatureHash.absorb_parts SignatureHash.hash_parts SignatureHash.expand_seed
    SignatureHash.nonce_hash SignatureHash.challenge_hash SignatureHash.hash_to_scalar
    Wire.from_bytes Wire.to_bytes VerifyingKey.from_bytes VerifyingKey.to_bytes VerifyingKey.verify
    Expanded.prune Expanded.prefix_of Expanded.derive Signing.assemble Signing.self_check
    Signing.sign_expanded Signing.from_seed Signing.verifying_key Signing.sign
    OneShot.validate_public_key OneShot.sign OneShot.verify le_bytes copy_into words inverse
    digest_in xor
derives = refl
