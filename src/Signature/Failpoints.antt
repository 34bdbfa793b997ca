-- ===== src/Signature/Failpoints.antt =====
-- signature.rs: the signing path of the test build, with the fail points that panic while secrets
-- are live. The thread-local slot is passed along; a panic ends the call and leaves the slot.
pub mod Recovery
use ed301_eddsa.Base.{Bool, true, false, not, Option, none, some, if◌then◌else◌}
use ed301_eddsa.Base.Bytes.{Bytes}
use ed301_eddsa.Base.Results.{Result, ok, err, ok_or, fail_if}
use ed301_eddsa.Secret.{declassify}
use ed301_eddsa.Libraries.Bigint.{Bigint}
use ed301_eddsa.Libraries.Xof.{Xof}
use ed301_eddsa.Scalar
use ed301_eddsa.Edwards
use ed301_eddsa.SignatureHash.{nonce_hash, challenge_hash, hash_to_scalar}
use ed301_eddsa.Signature.Error.{SignatureError, internal_failure}
use ed301_eddsa.Signature.Wire.{Signature}
use ed301_eddsa.Signature.Expanded.{ExpandedSecret}
use ed301_eddsa.Signature.Expanded
use ed301_eddsa.Signature.Signing.{SigningKey, assemble, self_check}

pub data SecretFailpoint : Type 0 where
  expanded_secret sign_intermediates : SecretFailpoint

-- `SECRET_FAILPOINT`.
abbrev pub Slot : Type 0
Slot = Option SecretFailpoint

pub data Outcome (A : Type 0) : Type 0 where
  returned : A → Outcome A
  panicked : Outcome A

abbrev pub Tested : Type 0 → Type 0
Tested A = Slot → Outcome A × Slot

abbrev pub pure : {A : Type 0} → A → Tested A
pure a slot = (returned a, slot)

continued : {A B : Type 0} → (A → Tested B) → Outcome A × Slot → Outcome B × Slot
continued k (returned a, slot) = k a slot
continued k (panicked, slot) = (panicked, slot)

unfoldable pub and_then : {A B : Type 0} → Tested A → (A → Tested B) → Tested B
unfolding continued
and_then m k slot = continued k (m slot)

-- The `?` operator and the early returns.
unfoldable pub with_ok :
    {A B : Type 0}
    → Result SignatureError A
    → (A → Tested (Result SignatureError B))
    → Tested (Result SignatureError B)
with_ok (ok a) k = k a
with_ok (err e) k = pure (err e)

abbrev pub is_armed : SecretFailpoint → Slot → Bool
is_armed expanded_secret (some expanded_secret) = true
is_armed sign_intermediates (some sign_intermediates) = true
is_armed point slot = false

unfoldable pub arm_secret_failpoint : SecretFailpoint → Slot → Slot
arm_secret_failpoint point slot = some point

unfoldable pub hit_secret_failpoint : SecretFailpoint → Tested (Unit {0})
hit_secret_failpoint point slot =
    if is_armed point slot then (panicked, none) else (returned tt, slot)

module _ ⦃b : Bigint⦄ ⦃xof : Xof⦄ where
  -- What `derive` computes before its fail point cannot fail and changes nothing.
  unfoldable pub derive : Bytes → Tested (Result SignatureError ExpandedSecret)
  derive seed = and_then (hit_secret_failpoint expanded_secret) λ _. pure (Expanded.derive seed)

  unfoldable pub sign_expanded : ExpandedSecret → Bytes → Tested (Result SignatureError Signature)
  sign_expanded expanded message =
      let nonce = hash_to_scalar (nonce_hash expanded.prefix message) in
      let commitment_point = Edwards.scalar_mul Edwards.basepoint nonce in
      let commitment_is_subgroup = declassify (Edwards.is_prime_subgroup commitment_point) in
      with_ok
        (fail_if (not commitment_is_subgroup) internal_failure
          (ok_or (Edwards.encode_public_artifact commitment_point) internal_failure))
        λ commitment.
          let commitment = declassify commitment in
          let challenge = hash_to_scalar (challenge_hash commitment expanded.public_key message) in
          let response = Scalar.add nonce (Scalar.mul challenge expanded.reduced_scalar) in
          let encoded = assemble commitment response in
          and_then (hit_secret_failpoint sign_intermediates)
            λ _. pure (self_check expanded message (declassify encoded))

  unfoldable pub sign : SigningKey → Bytes → Tested (Result SignatureError Signature)
  sign self message =
      and_then (derive self.seed)
        λ derived. with_ok derived λ expanded. sign_expanded expanded message

  -- The loop body of `actual_secret_scopes_unwind_and_subsequent_signing_recovers`: the outcome of
  -- signing with an armed fail point, and of signing again.
  unfoldable pub interrupted :
      SecretFailpoint
      → SigningKey
      → Bytes
      → Slot
      → (Outcome (Result SignatureError Signature) × Outcome (Result SignatureError Signature))
        × Slot
  interrupted point key message slot =
      let (outcome, slot) = sign key message (arm_secret_failpoint point slot) in
      let (again, slot) = sign key message slot in ((outcome, again), slot)
