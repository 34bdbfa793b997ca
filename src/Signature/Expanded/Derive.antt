-- ===== src/Signature/Expanded/Derive.antt =====
-- signature.rs: what `ExpandedSecret::derive` returns.
use ed301_eddsa.Base.{ℕ, ◌+◌, ◌*◌, ◌/◌, ◌%◌, ◌^◌, ◌≡◌, sym, ap, ◌∙◌, true, not, not-eq-false, some}
use ed301_eddsa.Base.{take, drop, [], ◌∷◌}
use ed301_eddsa.Base.Bytes.{Bytes, IsArray, le_value}
use ed301_eddsa.Base.Copies.{append-nil_eq}
use ed301_eddsa.Base.Results.{
  ok, err, ok_inj, >>=-eq-ok, ok_or-ok, fail_if-ok, fails_with, ok-not_err, fail_if_with,
}
use ed301_eddsa.Parameters.{field_bytes, hash_bytes, scalar_modulus}
use ed301_eddsa.Libraries.Bigint.{Bigint}
use ed301_eddsa.Libraries.Xof.{Xof}
use ed301_eddsa.Scalar.Reduce.{reduce_pruned_le_lem}
use ed301_eddsa.Edwards
use ed301_eddsa.Edwards.{EdwardsPoint}
use ed301_eddsa.Edwards.Bits.{scalar_mul_encoded_lem}
use ed301_eddsa.SignatureHash.{expand_seed}
use ed301_eddsa.SignatureHash.Concat.{shake, hash_parts_lem, hash_parts-IsArray}
use ed301_eddsa.Signature.Error.{SignatureError, internal_failure}
use ed301_eddsa.Signature.Expanded.{ExpandedSecret, prune, derive}
use ed301_eddsa.Signature.Expanded.Prune.{prune_lem, prefix_of_lem}

module _ ⦃b : Bigint⦄ ⦃xof : Xof⦄ where
  -- The clamped secret of a seed: 2^300 and bits 2 to 299 of the first half of SHAKE256(seed).
  abbrev pub clamped_secret : Bytes → ℕ
  clamped_secret seed = 2 ^ 300 + le_value (take field_bytes (shake seed)) % 2 ^ 300 / 4 * 4

  pub record IsExpanded (seed : Bytes) (expanded : ExpandedSecret) : Type 0 where
    pub reduced_scalar : expanded.reduced_scalar ≡ clamped_secret seed % scalar_modulus
    pub prefix : expanded.prefix ≡ drop field_bytes (shake seed)
    pub public_key :
        Edwards.encode_public_artifact (Edwards.scalar_mul Edwards.basepoint (clamped_secret seed))
        ≡ some expanded.public_key
    pub valid :
        Edwards.is_prime_subgroup_nonidentity
          (Edwards.scalar_mul Edwards.basepoint (clamped_secret seed))
        ≡ true

  expand_seed_lem : (seed : Bytes) → expand_seed seed ≡ shake seed
  unfolding expand_seed
  expand_seed_lem seed = hash_parts_lem (seed ∷ []) ∙ ap shake (append-nil_eq seed)

  expand_seed-IsArray : (seed : Bytes) → IsArray hash_bytes (expand_seed seed)
  unfolding expand_seed
  expand_seed-IsArray seed = hash_parts-IsArray (seed ∷ [])

  -- The value of the pruned bytes, and the point that they give.
  pruned_value : (seed : Bytes) → le_value (prune (expand_seed seed)) ≡ clamped_secret seed
  pruned_value seed =
      (prune_lem (expand_seed seed) (expand_seed-IsArray seed)).1
      ∙ ap (λ h. 2 ^ 300 + le_value (take field_bytes h) % 2 ^ 300 / 4 * 4) (expand_seed_lem seed)

  pub pruned_point :
      (seed : Bytes)
      → Edwards.scalar_mul_pruned Edwards.basepoint (prune (expand_seed seed))
        ≡ Edwards.scalar_mul Edwards.basepoint (clamped_secret seed)
  unfolding Edwards.scalar_mul_pruned
  pruned_point seed =
      scalar_mul_encoded_lem Edwards.basepoint (prune (expand_seed seed))
        (prune_lem (expand_seed seed) (expand_seed-IsArray seed)).0
      ∙ ap (Edwards.scalar_mul Edwards.basepoint) (pruned_value seed)

  -- A seed expands to the clamped secret modulo L, to the second half of its hash, and to the
  -- encoding of the multiple of the base point by the clamped secret, which passes the test of the
  -- prime subgroup without the identity.
  pub derive-ok :
      (seed : Bytes) (expanded : ExpandedSecret)
      → derive seed ≡ ok expanded
      → IsExpanded seed expanded
  unfolding derive
  derive-ok seed expanded h =
      let (valid, h1) = fail_if-ok _ _ _ h in
      let (public_key, e, h2) = >>=-eq-ok _ _ h1 in
      let same = ok_inj h2 in
      record {
        reduced_scalar =
            ap (λ t. t.reduced_scalar) (sym same)
            ∙ reduce_pruned_le_lem _ (prune_lem (expand_seed seed) (expand_seed-IsArray seed)).0
            ∙ ap (λ v. v % scalar_modulus) (pruned_value seed);
        prefix =
            ap (λ t. t.prefix) (sym same)
            ∙ prefix_of_lem (expand_seed seed) (expand_seed-IsArray seed).0
            ∙ ap (drop field_bytes) (expand_seed_lem seed);
        public_key =
            ap Edwards.encode_public_artifact (sym (pruned_point seed))
            ∙ ok_or-ok _ _ e
            ∙ ap (λ t. some t.public_key) same;
        valid =
            ap Edwards.is_prime_subgroup_nonidentity (sym (pruned_point seed))
            ∙ not-eq-false _ valid;
      }

  -- The only failure is the internal one.
  pub derive-error :
      (seed : Bytes) {e : SignatureError} → derive seed ≡ err e → e ≡ internal_failure
  unfolding derive
  derive-error seed h =
      fail_if_with
        (not (
          Edwards.is_prime_subgroup_nonidentity
            (Edwards.scalar_mul_pruned Edwards.basepoint (prune (expand_seed seed)))))
        h
        λ h.
          fails_with
            (Edwards.encode_public_artifact
              (Edwards.scalar_mul_pruned Edwards.basepoint (prune (expand_seed seed))))
            h λ public_key h. ok-not_err h
