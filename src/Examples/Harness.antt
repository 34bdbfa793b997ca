-- ===== src/Examples/Harness.antt =====
-- Runs of the harness over plain arithmetic and a Memcheck that finds the result defined.
use ed301_eddsa.Base.{
  ◌↔◌, ℕ, ◌+◌, ◌≡◌, refl, Option, none, some, xor, true, List, [], ◌∷◌, if◌then◌else◌, replicate,
}
use ed301_eddsa.Base.Bytes.{le_bytes}
use ed301_eddsa.Base.Copies.{copy_into}
use ed301_eddsa.Base.Words.{words}
use ed301_eddsa.Libraries.Reference.Inverse.{inverse}
use ed301_eddsa.Libraries.Reference.Digests.{digest_in}
use ed301_eddsa.Field
use ed301_eddsa.Scalar
use ed301_eddsa.Edwards
use ed301_eddsa.SignatureHash
use ed301_eddsa.Signature.Wire
use ed301_eddsa.Signature.VerifyingKey
use ed301_eddsa.Signature.Expanded
use ed301_eddsa.Signature.Signing
use ed301_eddsa.Signature.OneShot
use ed301_eddsa.Examples.Vectors.{backend, hasher, seed_hex, public_key_hex, signature_hex}
use ed301_eddsa.Base.Bytes.{Bytes}
use ed301_eddsa.Base.Text.{codes, same_bytes}
use ed301_eddsa.Harness.{Memcheck, Process}
use ed301_eddsa.Harness.Valgrind.{running_on_valgrind, mark_undefined, make_defined, get_vbits}
use ed301_eddsa.Harness.Inputs.{hex_nibble, read_pairs, required_array}
use ed301_eddsa.Harness.Run.{
  apply_mode, validity_bits, require_public_vbits, parse_mode, read_argument, read_arguments,
  run_public, run_sign, run_case, run, main,
}
use ed301_eddsa.Harness.Declassified.{RunPassed, exit_zero_iff}
use ed301_eddsa.Harness.Shadow.{ReportsShadow, KeepsLength}

abbrev memcheck : Memcheck
memcheck = record {
  running_on_valgrind = 1;
  make_mem_undefined = λ n shadow. replicate n 255;
  make_mem_defined = λ n shadow. replicate n 0;
  get_vbits = λ shadow buffer n. (1, record buffer { value = shadow });
  count_errors = 0;
  public_shadow = λ seed. replicate 38 0;
  signature_shadow = λ seed. replicate 76 0;
}

abbrev variable : Bytes → Option Bytes
variable name =
    if same_bytes name (codes "ED301_CT_SECRET_HEX")
    then some seed_hex
    else if same_bytes name (codes "ED301_CT_EXPECTED_PUBLIC_HEX")
    then some public_key_hex
    else if same_bytes name (codes "ED301_CT_EXPECTED_SIGNATURE_HEX")
    then some signature_hex
    else none

abbrev process : Process
process = record { instrumented = true; var = variable }

abbrev decimal : ℕ → Bytes
decimal n = (48 + n) ∷ []

abbrev arguments : List Bytes
arguments = codes "--case=sign" ∷ codes "--mode=tainted" ∷ []

-- The case `sign` passes in an instrumented build.
sign_passes : (main memcheck decimal process arguments).0 ≡ 0
unfolding Field.zero_element Field.one_element Field.from_canonical_bytes Field.from_u64
    Field.from_canonical_uint Field.from_canonical_words Field.to_canonical_bytes Field.add
    Field.sub Field.neg Field.mul Field.square Field.invert Field.ct_eq Field.sqrt Field.is_odd
    Field.is_zero Field.conditional_swap Field.conditional_select Scalar.read_words
    Scalar.pruned_words Scalar.hash_words Scalar.write_words Scalar.uint_from_le38
    Scalar.from_canonical_bytes Scalar.radix_64 Scalar.reduce_from Scalar.reduce_words
    Scalar.reduce_pruned_le Scalar.reduce_hash_le Scalar.write_canonical_bytes
    Scalar.canonical_bytes Scalar.add Scalar.mul Scalar.bit Edwards.edwards_a Edwards.edwards_d
    Edwards.two Edwards.identity Edwards.basepoint Edwards.from_affine Edwards.add Edwards.double
    Edwards.negate Edwards.is_identity Edwards.multiply_by_cofactor Edwards.ct_eq Edwards.is_valid
    Edwards.conditional_select Edwards.encoded_bit Edwards.rounds_from Edwards.scalar_mul_with
    Edwards.scalar_mul Edwards.scalar_mul_encoded Edwards.scalar_mul_pruned
    Edwards.is_prime_subgroup Edwards.is_prime_subgroup_nonidentity Edwards.encode_inner
    Edwards.encode Edwards.encode_public_artifact Edwards.decode Edwards.decode_strict_subgroup
    SignatureHash.absorb_parts SignatureHash.hash_parts SignatureHash.expand_seed
    SignatureHash.nonce_hash SignatureHash.challenge_hash SignatureHash.hash_to_scalar
    Wire.from_bytes Wire.to_bytes VerifyingKey.from_bytes VerifyingKey.to_bytes VerifyingKey.verify
    Expanded.prune Expanded.prefix_of Expanded.derive Signing.assemble Signing.self_check
    Signing.sign_expanded Signing.from_seed Signing.verifying_key Signing.sign
    OneShot.validate_public_key OneShot.sign OneShot.verify le_bytes copy_into words inverse
    digest_in xor hex_nibble read_pairs required_array running_on_valgrind mark_undefined
    make_defined get_vbits apply_mode validity_bits require_public_vbits parse_mode read_argument
    read_arguments run_public run_sign run_case run main
sign_passes = refl

public_passes :
    (main memcheck decimal process (codes "--case=public" ∷ codes "--mode=defined" ∷ [])).0 ≡ 0
unfolding Field.zero_element Field.one_element Field.from_canonical_bytes Field.from_u64
    Field.from_canonical_uint Field.from_canonical_words Field.to_canonical_bytes Field.add
    Field.sub Field.neg Field.mul Field.square Field.invert Field.ct_eq Field.sqrt Field.is_odd
    Field.is_zero Field.conditional_swap Field.conditional_select Scalar.read_words
    Scalar.pruned_words Scalar.hash_words Scalar.write_words Scalar.uint_from_le38
    Scalar.from_canonical_bytes Scalar.radix_64 Scalar.reduce_from Scalar.reduce_words
    Scalar.reduce_pruned_le Scalar.reduce_hash_le Scalar.write_canonical_bytes
    Scalar.canonical_bytes Scalar.add Scalar.mul Scalar.bit Edwards.edwards_a Edwards.edwards_d
    Edwards.two Edwards.identity Edwards.basepoint Edwards.from_affine Edwards.add Edwards.double
    Edwards.negate Edwards.is_identity Edwards.multiply_by_cofactor Edwards.ct_eq Edwards.is_valid
    Edwards.conditional_select Edwards.encoded_bit Edwards.rounds_from Edwards.scalar_mul_with
    Edwards.scalar_mul Edwards.scalar_mul_encoded Edwards.scalar_mul_pruned
    Edwards.is_prime_subgroup Edwards.is_prime_subgroup_nonidentity Edwards.encode_inner
    Edwards.encode Edwards.encode_public_artifact Edwards.decode Edwards.decode_strict_subgroup
    SignatureHash.absorb_parts SignatureHash.hash_parts SignatureHash.expand_seed
    SignatureHash.nonce_hash SignatureHash.challenge_hash SignatureHash.hash_to_scalar
    Wire.from_bytes Wire.to_bytes VerifyingKey.from_bytes VerifyingKey.to_bytes VerifyingKey.verify
    Expanded.prune Expanded.prefix_of Expanded.derive Signing.assemble Signing.self_check
    Signing.sign_expanded Signing.from_seed Signing.verifying_key Signing.sign
    OneShot.validate_public_key OneShot.sign OneShot.verify le_bytes copy_into words inverse
    digest_in xor hex_nibble read_pairs required_array running_on_valgrind mark_undefined
    make_defined get_vbits apply_mode validity_bits require_public_vbits parse_mode read_argument
    read_arguments run_public run_sign run_case run main
public_passes = refl

reports : ReportsShadow memcheck
reports shadow buffer n size room status = refl

sized : KeepsLength memcheck
sized seed = (refl, refl)

exit_zero_iff_example :
    ((main memcheck decimal process arguments).0 ≡ 0) ↔ RunPassed memcheck process arguments
exit_zero_iff_example = exit_zero_iff memcheck reports sized decimal process arguments

-- The run is one that passes, so that both sides hold.
sign-RunPassed : RunPassed memcheck process arguments
sign-RunPassed = (exit_zero_iff memcheck reports sized decimal process arguments).0 sign_passes
