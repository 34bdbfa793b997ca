-- ===== src/Signature/Expanded.antt =====
-- signature.rs: `ExpandedSecret`, what a seed expands to.
pub mod Prune
pub mod Derive
pub mod Total
use ed301_eddsa.Base.{◌-◌, ◌*◌, not, take, drop, replicate, get_or, set, bit_and, bit_or}
use ed301_eddsa.Base.Bytes.{Bytes}
use ed301_eddsa.Base.Copies.{copy_into}
use ed301_eddsa.Base.Results.{Result, ok, ◌>>=◌, ok_or, fail_if}
use ed301_eddsa.Parameters.{field_bytes}
use ed301_eddsa.Secret.{Secret, secret, declassify}
use ed301_eddsa.Libraries.Bigint.{Bigint}
use ed301_eddsa.Libraries.Xof.{Xof}
use ed301_eddsa.Scalar
use ed301_eddsa.Scalar.{Scalar}
use ed301_eddsa.Edwards
use ed301_eddsa.SignatureHash.{expand_seed}
use ed301_eddsa.Signature.Error.{SignatureError, internal_failure}

pub record ExpandedSecret : Type 0 where
  pub reduced_scalar : Secret Scalar
  pub prefix : Secret Bytes
  pub public_key : Bytes

-- `pruned_scalar` in `derive`, from the expanded hash.
unfoldable pub prune : Bytes → Secret Bytes
prune expanded_hash =
    let copied = secret (copy_into 0 (take field_bytes expanded_hash) (replicate field_bytes 0)) in
    let low = set copied 0 (bit_and (get_or copied 0 0) 0xfc) in
    set low (field_bytes - 1) (bit_or (bit_and (get_or low (field_bytes - 1) 0) 0x0f) 0x10)

-- `prefix` in `derive`, from the expanded hash.
unfoldable pub prefix_of : Bytes → Secret Bytes
prefix_of expanded_hash =
    secret (copy_into 0 (drop field_bytes expanded_hash) (replicate field_bytes 0))

module _ ⦃b : Bigint⦄ ⦃xof : Xof⦄ where
  unfoldable pub derive : Bytes → Result SignatureError ExpandedSecret
  derive seed =
      let expanded_hash = expand_seed seed in
      let pruned_scalar = prune expanded_hash in
      let prefix = prefix_of expanded_hash in
      let reduced_scalar = Scalar.reduce_pruned_le pruned_scalar in
      let public_point = Edwards.scalar_mul_pruned Edwards.basepoint pruned_scalar in
      let public_is_valid = declassify (Edwards.is_prime_subgroup_nonidentity public_point) in
      fail_if (not public_is_valid) internal_failure (
        ok_or (Edwards.encode_public_artifact public_point) internal_failure >>= λ public_key.
        let public_key = declassify public_key in
        ok (record { reduced_scalar = reduced_scalar; prefix = prefix; public_key = public_key }))
