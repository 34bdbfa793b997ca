-- ===== src/Harness/Cases.antt =====
-- secret-taint/src/main.rs: when the two cases of the harness pass.
use ed301_eddsa.Base.{
  ℕ, ◌≡◌, ◌⊎◌, ◌↔◌, inl, inr, refl, sym, ap, ◌∙◌, not-eq-false, Bool-cases, length, some, [],
}
use ed301_eddsa.Base.Bytes.{Bytes}
use ed301_eddsa.Base.Results.{ok, >>=-eq-ok, map_err-ok, fail_if-ok, ok_inj}
use ed301_eddsa.Base.Text.{codes, same_bytes, same_bytes-eq, same_bytes_self}
use ed301_eddsa.Parameters.{seed_bytes, public_key_bytes, signature_bytes}
use ed301_eddsa.Libraries.Bigint.{Bigint}
use ed301_eddsa.Libraries.Xof.{Xof}
use ed301_eddsa.Signature.Wire.{Signature}
use ed301_eddsa.Signature.Wire
use ed301_eddsa.Signature.VerifyingKey.{VerifyingKey}
use ed301_eddsa.Signature.VerifyingKey
use ed301_eddsa.Signature.Signing.{SigningKey}
use ed301_eddsa.Signature.Signing
use ed301_eddsa.Signature.OneShot
use ed301_eddsa.Harness.{Memcheck, Process, Mode}
use ed301_eddsa.Harness.Run.{
  secret_env, expected_public_env, expected_signature_env, require_public_vbits, run_public,
  run_sign, run_case,
}
use ed301_eddsa.Harness.Hexadecimal.{Spells, required_array_iff}
use ed301_eddsa.Harness.Shadow.{
  ReportsShadow, KeepsLength, seed_in, apply_mode_lem, Reported, IsDeclassified,
  require_public_vbits_iff,
}

-- A variable of the environment spells that many bytes in hexadecimal.
abbrev pub Provides : Process → Bytes → ℕ → Bytes → Type 0
Provides process name n bytes =
    (text : Bytes) × (process.var name ≡ some text) × Spells text bytes × (length bytes ≡ n)

-- What a passing run of a case has found: the inputs, the crate's result on the seed, which is the
-- expected one, and no undefined bit in it where the run demands that.
module _ ⦃b : Bigint⦄ ⦃xof : Xof⦄ (vg : Memcheck) (process : Process) (mode : Mode) where
  abbrev pub PublicPassed : Type 0
  PublicPassed =
      (seed expected : Bytes) × Provides process (codes "ED301_CT_SECRET_HEX") seed_bytes seed
      × Provides process (codes "ED301_CT_EXPECTED_PUBLIC_HEX") public_key_bytes expected
      × ((key : SigningKey) × (verifying : VerifyingKey) × (Signing.from_seed seed ≡ ok key)
          × (Signing.verifying_key key ≡ ok verifying)
          × (VerifyingKey.to_bytes verifying ≡ expected))
      × Reported vg public_key_bytes (vg.public_shadow (seed_in vg mode seed))
      × IsDeclassified process.instrumented mode (vg.public_shadow (seed_in vg mode seed))

  abbrev pub SignPassed : Type 0
  SignPassed =
      (seed expected : Bytes) × Provides process (codes "ED301_CT_SECRET_HEX") seed_bytes seed
      × Provides process (codes "ED301_CT_EXPECTED_SIGNATURE_HEX") signature_bytes expected
      × (OneShot.sign seed [] ≡ ok expected)
      × Reported vg signature_bytes (vg.signature_shadow (seed_in vg mode seed))
      × IsDeclassified process.instrumented mode (vg.signature_shadow (seed_in vg mode seed))

  abbrev pub CasePassed : Bytes → Type 0
  CasePassed case = ((case ≡ codes "public") × PublicPassed) ⊎ ((case ≡ codes "sign") × SignPassed)

module _ ⦃b : Bigint⦄ ⦃xof : Xof⦄ (vg : Memcheck) (reports : ReportsShadow vg)
    (sized : KeepsLength vg) (decimal : ℕ → Bytes) (process : Process) where
  -- The check on a result in memory.
  checks_iff :
      (mode : Mode) (value shadow : Bytes) (n : ℕ)
      → length value ≡ n
      → length shadow ≡ n
      → (require_public_vbits vg decimal process.instrumented mode
            (record { value = value; shadow = shadow })
          ≡ ok tt)
        ↔ (Reported vg n shadow × IsDeclassified process.instrumented mode shadow)
  checks_iff mode value shadow n total size =
      require_public_vbits_iff vg reports decimal process.instrumented mode _ n total size

  run_public-ok :
      (mode : Mode) {u : Unit {0}}
      → run_public vg decimal process mode ≡ ok u
      → PublicPassed vg process mode
  unfolding run_public
  run_public-ok mode h =
      let (seed, s, h1) = >>=-eq-ok _ _ h in
      let (expected, e, h2) = >>=-eq-ok _ _ h1 in
      let (key, k, h3) = >>=-eq-ok _ _ h2 in
      let (verifying, v, h4) = >>=-eq-ok _ _ h3 in
      let (checked, c, h5) = >>=-eq-ok _ _ h4 in
      let same = same_bytes-eq _ _ (not-eq-false _ (fail_if-ok _ _ _ h5).0) in
      let provided = (required_array_iff _ _ _ expected).0 e in
      let total = ap length same ∙ provided.3 in
      let (reported, clear) =
        (checks_iff mode _ _ public_key_bytes total (sized (seed_in vg mode seed)).0).0 (
          ap
            (λ t.
              require_public_vbits vg decimal process.instrumented mode
                (record { value = VerifyingKey.to_bytes verifying; shadow = vg.public_shadow t }))
            (sym (apply_mode_lem vg mode seed))
          ∙ c) in
      (
        seed,
        expected,
        (required_array_iff _ _ _ seed).0 s,
        provided,
        (
          key,
          verifying,
          ap Signing.from_seed (ap (λ t. t.value) (sym (apply_mode_lem vg mode seed)))
              ∙ map_err-ok _ _ k,
          map_err-ok _ _ v,
          same,
        ),
        reported,
        clear,
      )

  run_public-passed :
      (mode : Mode) → PublicPassed vg process mode → run_public vg decimal process mode ≡ ok tt
  unfolding run_public
  run_public-passed mode (seed, expected, s, e, (key, verifying, k, v, same), reported, clear) =
      rw
        (
          (required_array_iff seed_bytes process.var secret_env seed).1 s,
          (required_array_iff public_key_bytes process.var expected_public_env expected).1 e,
          apply_mode_lem vg mode seed,
          k,
          v,
          (checks_iff mode (VerifyingKey.to_bytes verifying) _ public_key_bytes
                (ap length same ∙ e.3) (sized (seed_in vg mode seed)).0).1
              (reported, clear),
          same,
          same_bytes_self expected,
        )
        refl

  run_sign-ok :
      (mode : Mode) {u : Unit {0}}
      → run_sign vg decimal process mode ≡ ok u
      → SignPassed vg process mode
  unfolding run_sign OneShot.sign
  run_sign-ok mode h =
      let (seed, s, h1) = >>=-eq-ok _ _ h in
      let (expected, e, h2) = >>=-eq-ok _ _ h1 in
      let (key, k, h3) = >>=-eq-ok _ _ h2 in
      let (parsed, v, h4) = >>=-eq-ok _ _ h3 in
      let (checked, c, h5) = >>=-eq-ok _ _ h4 in
      let same = same_bytes-eq _ _ (not-eq-false _ (fail_if-ok _ _ _ h5).0) in
      let provided = (required_array_iff _ _ _ expected).0 e in
      let imported : Signing.from_seed seed ≡ ok key =
        ap Signing.from_seed (ap (λ t. t.value) (sym (apply_mode_lem vg mode seed)))
        ∙ map_err-ok _ _ k in
      let signed : Signing.sign key [] ≡ ok parsed = map_err-ok _ _ v in
      let (reported, clear) =
        (checks_iff mode _ _ signature_bytes (ap length same ∙ provided.3)
            (sized (seed_in vg mode seed)).1).0
          (ap
              (λ t.
                require_public_vbits vg decimal process.instrumented mode
                  (record { value = Wire.to_bytes parsed; shadow = vg.signature_shadow t }))
              (sym (apply_mode_lem vg mode seed))
            ∙ c) in
      (
        seed,
        expected,
        (required_array_iff _ _ _ seed).0 s,
        provided,
        rw (imported, signed) (ap ok same),
        reported,
        clear,
      )

  run_sign-passed :
      (mode : Mode) → SignPassed vg process mode → run_sign vg decimal process mode ≡ ok tt
  unfolding run_sign OneShot.sign
  run_sign-passed mode (seed, expected, s, e, signed, reported, clear) =
      let (key, k, h1) = >>=-eq-ok (Signing.from_seed seed) _ signed in
      let (parsed, v, h2) = >>=-eq-ok (Signing.sign key []) _ h1 in
      let same = ok_inj h2 in
      rw
        (
          (required_array_iff seed_bytes process.var secret_env seed).1 s,
          (required_array_iff signature_bytes process.var expected_signature_env expected).1 e,
          apply_mode_lem vg mode seed,
          k,
          v,
          (checks_iff mode (Wire.to_bytes parsed) _ signature_bytes (ap length same ∙ e.3)
                (sized (seed_in vg mode seed)).1).1
              (reported, clear),
          same,
          same_bytes_self expected,
        )
        refl

  pub passed_case :
      (mode : Mode) (case : Bytes) {u : Unit {0}}
      → run_case vg decimal process case mode ≡ ok u
      → CasePassed vg process mode case
  unfolding run_case
  passed_case mode case h = elim (Bool-cases (same_bytes case (codes "public"))) [
    | inl public ↦ inl (same_bytes-eq _ _ public, run_public-ok mode (rw public at h))
    | inr other ↦ elim (Bool-cases (same_bytes case (codes "sign"))) [
      | inl sign ↦ inr (same_bytes-eq _ _ sign, run_sign-ok mode (rw (other, sign) at h))
      | inr neither ↦ cc (rw (other, neither) at h)
    ]
  ]

  pub run_case-passed :
      (mode : Mode) (case : Bytes)
      → CasePassed vg process mode case
      → run_case vg decimal process case mode ≡ ok tt
  unfolding run_case
  run_case-passed mode case (inl (e, passed)) = rw e (run_public-passed mode passed)
  run_case-passed mode case (inr (e, passed)) = rw e (run_sign-passed mode passed)
