-- ===== src/Signature/Failpoints/Recovery.antt =====
-- signature.rs: a panic at a fail point leaves the signing path as it was.
use ed301_eddsa.Base.{◌≡◌, refl, ap, ◌∙◌, not, none, some}
use ed301_eddsa.Base.Bytes.{Bytes}
use ed301_eddsa.Base.Results.{Result, ok, ◌>>=◌, ok_or, fail_if, >>=-eq-ok, fail_if-ok}
use ed301_eddsa.Libraries.Bigint.{Bigint}
use ed301_eddsa.Libraries.Xof.{Xof}
use ed301_eddsa.Edwards
use ed301_eddsa.SignatureHash.{nonce_hash, hash_to_scalar}
use ed301_eddsa.Signature.Error.{SignatureError, internal_failure}
use ed301_eddsa.Signature.Wire.{Signature}
use ed301_eddsa.Signature.Expanded.{ExpandedSecret}
use ed301_eddsa.Signature.Expanded
use ed301_eddsa.Signature.Expanded.Total.{derive_total}
use ed301_eddsa.Signature.Signing.{SigningKey, self_check, assemble}
use ed301_eddsa.Signature.Signing
use ed301_eddsa.Signature.Signing.Formula.{response_to}
use ed301_eddsa.Signature.Signing.Total.{sign_expanded_total}
use ed301_eddsa.Signature.Failpoints.{
  SecretFailpoint, expanded_secret, sign_intermediates, Slot, Outcome, returned, panicked, Tested,
  pure, and_then, with_ok, arm_secret_failpoint, hit_secret_failpoint, sign_expanded, sign,
  interrupted,
}
use ed301_eddsa.Signature.Failpoints

module _ ⦃b : Bigint⦄ ⦃xof : Xof⦄ where
  -- What `sign_expanded` does up to its fail point.
  committed : ExpandedSecret → Bytes → Result SignatureError Bytes
  committed expanded message =
      let point =
        Edwards.scalar_mul Edwards.basepoint
          (hash_to_scalar (nonce_hash expanded.prefix message)) in
      fail_if (not (Edwards.is_prime_subgroup point)) internal_failure
        (ok_or (Edwards.encode_public_artifact point) internal_failure)

  committed-ok :
      (expanded : ExpandedSecret) (message : Bytes) {s : Signature}
      → Signing.sign_expanded expanded message ≡ ok s
      → (commitment : Bytes) × (committed expanded message ≡ ok commitment)
        × (self_check expanded message
              (assemble commitment (response_to expanded message commitment))
            ≡ ok s)
  unfolding Signing.sign_expanded committed
  committed-ok expanded message h =
      let (member, h1) = fail_if-ok _ _ _ h in
      let (commitment, e, h2) = >>=-eq-ok _ _ h1 in
      (
        commitment,
        ap
              (λ c. fail_if c internal_failure (
                ok_or (Edwards.encode_public_artifact (point_of expanded message))
                  internal_failure))
              member
            ∙ e,
        h2,
      )
    where
      point_of : ExpandedSecret → Bytes → Edwards.EdwardsPoint
      point_of expanded message =
          Edwards.scalar_mul Edwards.basepoint (hash_to_scalar (nonce_hash expanded.prefix message))

  sign_expanded-unarmed :
      (expanded : ExpandedSecret) (message commitment : Bytes)
      → committed expanded message ≡ ok commitment
      → sign_expanded expanded message none ≡ (
        returned (
            self_check expanded message
              (assemble commitment (response_to expanded message commitment))),
        none,
      )
  unfolding sign_expanded committed and_then hit_secret_failpoint with_ok
  sign_expanded-unarmed expanded message commitment h = rw (h) refl

  sign_expanded-armed :
      (expanded : ExpandedSecret) (message commitment : Bytes)
      → committed expanded message ≡ ok commitment
      → sign_expanded expanded message (some sign_intermediates) ≡ (panicked, none)
  unfolding sign_expanded committed and_then hit_secret_failpoint with_ok
  sign_expanded-armed expanded message commitment h = rw (h) refl

  -- A key with what signing computes for a message.
  record IsRun (key : SigningKey) (message : Bytes) (s : Signature) : Type 0 where
    expanded : ExpandedSecret
    derived : Expanded.derive key.seed ≡ ok expanded
    unarmed : sign_expanded expanded message none ≡ (returned (ok s), none)
    armed : sign_expanded expanded message (some sign_intermediates) ≡ (panicked, none)
    signed : Signing.sign key message ≡ ok s

  IsRun-total : (key : SigningKey) (message : Bytes) → (s : Signature) × IsRun key message s
  unfolding Signing.sign
  IsRun-total key message =
      let k = derive_total key.seed in
      let (s, signed) = sign_expanded_total key.seed message k in
      let (commitment, c, checked) = committed-ok k.expanded message signed in
      (
        s,
        record {
          expanded = k.expanded;
          derived = k.derived;
          unarmed =
              sign_expanded-unarmed k.expanded message commitment c
              ∙ ap (λ r. (returned r, none)) checked;
          armed = sign_expanded-armed k.expanded message commitment c;
          signed = ap (λ m. m >>= λ e. Signing.sign_expanded e message) k.derived ∙ signed;
        },
      )

  sign-unarmed :
      {key : SigningKey} {message : Bytes} {s : Signature}
      → IsRun key message s
      → sign key message none ≡ (returned (ok s), none)
  unfolding sign Failpoints.derive and_then hit_secret_failpoint with_ok
  sign-unarmed k = rw (k.derived) k.unarmed

  sign-armed :
      {key : SigningKey} {message : Bytes} {s : Signature} (point : SecretFailpoint)
      → IsRun key message s
      → sign key message (some point) ≡ (panicked, none)
  unfolding sign Failpoints.derive and_then hit_secret_failpoint with_ok
  sign-armed expanded_secret k = refl
  sign-armed sign_intermediates k = rw (k.derived) k.armed

  -- In the test build, for any key and message and whatever is armed before, signing with an armed
  -- fail point panics, and signing again returns the signature that the production build returns
  -- and leaves no fail point armed.
  pub interrupted_lem :
      (point : SecretFailpoint) (key : SigningKey) (message : Bytes) (slot : Slot)
      → (s : Signature) × (Signing.sign key message ≡ ok s)
        × (interrupted point key message slot ≡ ((panicked, returned (ok s)), none))
  unfolding interrupted arm_secret_failpoint
  interrupted_lem point key message slot =
      let (s, k) = IsRun-total key message in
      (
        s,
        k.signed,
        ap (λ r. let (again, last) = sign key message r.1 in ((r.0, again), last))
              (sign-armed point k)
            ∙ ap (λ r. ((panicked, r.0), r.1)) (sign-unarmed k),
      )
