-- ===== src/Signature/Expanded/Total.antt =====
-- signature.rs: `ExpandedSecret::derive` never fails.
use ed301_eddsa.Base.{
  ◌%◌, ◌^◌, ◌<◌, arith, ◌≡◌, ◌≢◌, refl, ap, ap₂, ◌∙◌, true, false, not, ◌&&◌, false_of_iff, some,
  length,
}
use ed301_eddsa.Base.Bytes.{Bytes}
use ed301_eddsa.Base.Results.{ok}
use ed301_eddsa.Parameters.{field_bits, field_bytes, scalar_modulus}
use ed301_eddsa.Libraries.Bigint.{Bigint}
use ed301_eddsa.Libraries.Xof.{Xof}
use ed301_eddsa.Scalar
use ed301_eddsa.Edwards
use ed301_eddsa.Edwards.{EdwardsPoint}
use ed301_eddsa.Edwards.Law.Times.{times}
use ed301_eddsa.Edwards.Law.Refined.{Stands, scalar_mul-Stands}
use ed301_eddsa.Edwards.Law.Order.{base, basepoint-Stands}
use ed301_eddsa.Edwards.Law.Cyclic.{times-eq-neutral}
use ed301_eddsa.Edwards.Law.Compared.{is_identity-Stands}
use ed301_eddsa.Edwards.Law.Published.{multiple-IsPublished, multiple-is_prime_subgroup}
use ed301_eddsa.SignatureHash.{expand_seed}
use ed301_eddsa.Signature.Expanded.{ExpandedSecret, prune, prefix_of, derive}
use ed301_eddsa.Signature.Expanded.Derive.{clamped_secret, pruned_point}

module _ ⦃b : Bigint⦄ ⦃xof : Xof⦄ where
  pub clamped_secret-lt : (seed : Bytes) → clamped_secret seed < 2 ^ field_bits
  clamped_secret-lt seed = omega arith

  -- The clamped secret is four times a number from 2^298 to below 2^299, which L exceeds.
  clamped_secret-nonzero : (seed : Bytes) → clamped_secret seed % scalar_modulus ≢ 0
  clamped_secret-nonzero seed h = omega (arith, h)

  multiple_nonidentity :
      (seed : Bytes) {p : EdwardsPoint}
      → Stands p (times (clamped_secret seed) base)
      → Edwards.is_identity p ≡ false
  multiple_nonidentity seed k =
      false_of_iff _ (is_identity-Stands k)
        λ e. clamped_secret-nonzero seed (times-eq-neutral (clamped_secret seed) e)

  derive-steps :
      (seed public_key : Bytes)
      → Edwards.is_prime_subgroup_nonidentity
          (Edwards.scalar_mul_pruned Edwards.basepoint (prune (expand_seed seed)))
        ≡ true
      → Edwards.encode_public_artifact
          (Edwards.scalar_mul_pruned Edwards.basepoint (prune (expand_seed seed)))
        ≡ some public_key
      → derive seed
        ≡ ok (record {
          reduced_scalar = Scalar.reduce_pruned_le (prune (expand_seed seed));
          prefix = prefix_of (expand_seed seed);
          public_key = public_key;
        })
  unfolding derive
  derive-steps seed public_key valid encodes = rw (valid, encodes) refl

  -- The derivation of a seed, and the point that its public key decodes to.
  pub record IsDerived (seed : Bytes) : Type 0 where
    pub expanded : ExpandedSecret
    pub derived : derive seed ≡ ok expanded
    pub point : EdwardsPoint
    pub total : length expanded.public_key ≡ field_bytes
    pub decodes : Edwards.decode expanded.public_key ≡ some point
    pub stands : Stands point (times (clamped_secret seed) base)
    pub nonidentity : Edwards.is_identity point ≡ false
    pub subgroup : Edwards.is_prime_subgroup point ≡ true

  pub derive_total : (seed : Bytes) → IsDerived seed
  unfolding Edwards.is_prime_subgroup_nonidentity
  derive_total seed =
      let k = multiple-IsPublished (clamped_secret seed) (clamped_secret-lt seed) in
      let h = scalar_mul-Stands (clamped_secret seed) basepoint-Stands (clamped_secret-lt seed) in
      record {
        expanded = _;
        derived =
            derive-steps seed k.bytes
              (ap Edwards.is_prime_subgroup_nonidentity (pruned_point seed)
                ∙ ap₂ (λ s t. not s && t) (multiple_nonidentity seed h)
                    (multiple-is_prime_subgroup (clamped_secret seed) h))
              (ap Edwards.encode_public_artifact (pruned_point seed) ∙ k.encodes);
        point = k.recovered;
        total = k.total;
        decodes = k.decodes;
        stands = k.stands;
        nonidentity = multiple_nonidentity seed k.stands;
        subgroup = multiple-is_prime_subgroup (clamped_secret seed) k.stands;
      }
