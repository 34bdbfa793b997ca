-- ===== src/Signature/Signing/Total.antt =====
-- signature.rs: `sign_expanded` never fails on the secret of a seed.
use native.Mathlib.Nat.{mod-lt, mod-mod, add-mod-mod}
use ed301_eddsa.Base.{
  ◌+◌, ◌*◌, ◌%◌, ◌<◌, arith, ◌≡◌, refl, sym, ap, ap₂, ◌∙◌, true, some, ◌++◌, length, take, drop,
  replicate, length-append, take-append, drop-append,
}
use ed301_eddsa.Base.Bytes.{Bytes, le_bytes, length-le_bytes}
use ed301_eddsa.Base.Results.{ok}
use ed301_eddsa.Numbers.Powers.{mul-mod_right}
use ed301_eddsa.Parameters.{field_bytes, scalar_bytes, scalar_modulus}
use ed301_eddsa.Libraries.Bigint.{Bigint}
use ed301_eddsa.Libraries.Xof.{Xof}
use ed301_eddsa.Scalar.{Scalar}
use ed301_eddsa.Scalar
use ed301_eddsa.Scalar.Codec.{from_canonical_bytes-write, write_canonical_bytes_lem}
use ed301_eddsa.Edwards
use ed301_eddsa.Edwards.{EdwardsPoint}
use ed301_eddsa.Edwards.Group.{ct_eq_iff}
use ed301_eddsa.Edwards.Law.{sum}
use ed301_eddsa.Edwards.Law.Times.{times, times-add, times-mul}
use ed301_eddsa.Edwards.Law.Refined.{Stands, add-Stands, double-Stands, scalar_mul-Stands}
use ed301_eddsa.Edwards.Law.Order.{base, basepoint-Stands, base-OnAffine}
use ed301_eddsa.Edwards.Law.Cyclic.{times_congr}
use ed301_eddsa.Edwards.Law.Compared.{ct_eq-Stands}
use ed301_eddsa.Edwards.Law.Published.{multiple-IsPublished, multiple-is_prime_subgroup}
use ed301_eddsa.SignatureHash.{nonce_hash, hash_to_scalar}
use ed301_eddsa.Signature.Wire.{Signature}
use ed301_eddsa.Signature.Wire
use ed301_eddsa.Signature.Wire.Parse.{parse_iff}
use ed301_eddsa.Signature.VerifyingKey.{VerifyingKey}
use ed301_eddsa.Signature.VerifyingKey
use ed301_eddsa.Signature.VerifyingKey.Parse.{key_iff}
use ed301_eddsa.Signature.VerifyingKey.Equation.{hashed, nonce_lem, verify_iff}
use ed301_eddsa.Signature.Expanded.{ExpandedSecret}
use ed301_eddsa.Signature.Expanded.Derive.{clamped_secret, derive-ok}
use ed301_eddsa.Signature.Expanded.Total.{IsDerived}
use ed301_eddsa.Signature.Signing.{assemble, self_check, sign_expanded}
use ed301_eddsa.Signature.Signing.Formula.{assemble_lem, response_to, response_value, hashed-lt}

module _ ⦃b : Bigint⦄ where
  -- The bytes of a commitment and of a response parse as a signature.
  assembled-parses :
      (commitment : Bytes) (point : EdwardsPoint) (response : Scalar)
      → length commitment ≡ field_bytes
      → Edwards.decode commitment ≡ some point
      → response < scalar_modulus
      → Wire.from_bytes (assemble commitment response)
        ≡ ok (record {
          encoded = assemble commitment response;
          commitment_encoding = commitment;
          commitment = point;
          response = response;
        })
  assembled-parses commitment point response n decodes h =
      let buffer = assemble_lem commitment response n h in
      let first =
        ap (take field_bytes) buffer
        ∙ ap (λ t. take t (commitment ++ le_bytes scalar_bytes response)) (sym n)
        ∙ take-append commitment _ in
      let second =
        ap (drop field_bytes) buffer
        ∙ ap (λ t. drop t (commitment ++ le_bytes scalar_bytes response)) (sym n)
        ∙ drop-append commitment _
        ∙ sym (write_canonical_bytes_lem response (replicate scalar_bytes 0) h refl) in
      (parse_iff _ _).1 (record {
        total =
            ap length buffer
            ∙ length-append commitment _
            ∙ ap₂ ◌+◌ n (length-le_bytes scalar_bytes response);
        encoded = refl;
        commitment_encoding = sym first;
        commitment = ap Edwards.decode first ∙ decodes;
        response =
            ap Scalar.from_canonical_bytes second
            ∙ from_canonical_bytes-write response (replicate scalar_bytes 0) h refl;
      })

module _ ⦃b : Bigint⦄ ⦃xof : Xof⦄ where
  self_check-steps :
      (expanded : ExpandedSecret) (message encoded : Bytes) (s : Signature) (key : VerifyingKey)
      → Wire.from_bytes encoded ≡ ok s
      → Edwards.is_prime_subgroup s.commitment ≡ true
      → VerifyingKey.from_bytes expanded.public_key ≡ ok key
      → VerifyingKey.verify key message s ≡ true
      → self_check expanded message encoded ≡ ok s
  unfolding self_check
  self_check-steps expanded message encoded s key parses subgroup accepted verified =
      rw (parses, subgroup, accepted, verified) refl

  sign_expanded-steps :
      (expanded : ExpandedSecret) (message commitment : Bytes)
      → Edwards.is_prime_subgroup (
          Edwards.scalar_mul Edwards.basepoint
            (hash_to_scalar (nonce_hash expanded.prefix message)))
        ≡ true
      → Edwards.encode_public_artifact (
          Edwards.scalar_mul Edwards.basepoint
            (hash_to_scalar (nonce_hash expanded.prefix message)))
        ≡ some commitment
      → sign_expanded expanded message
        ≡ self_check expanded message
            (assemble commitment (response_to expanded message commitment))
  unfolding sign_expanded
  sign_expanded-steps expanded message commitment subgroup encodes = rw (subgroup, encodes) refl

  -- The equation of verification holds for S = r + k s modulo L, where R and A stand for r B and
  -- c B, and s is c modulo L.
  verified_lem :
      (key : VerifyingKey) (message : Bytes) (s : Signature) (r c : Scalar)
      → r < scalar_modulus
      → Stands s.commitment (times r base)
      → Stands key.point (times c base)
      → s.response
        ≡ (r + hashed (s.commitment_encoding ++ (key.encoded ++ message)) * (c % scalar_modulus))
          % scalar_modulus
      → VerifyingKey.verify key message s ≡ true
  verified_lem key message s r c below h k e = (verify_iff key message s).1 (
      (ct_eq_iff _ _).0 (
        (ct_eq-Stands
            (double-Stands (
              double-Stands (
                scalar_mul-Stands s.response basepoint-Stands (
                  omega (
                    arith,
                    e,
                    mod-lt (r + challenge * (c % scalar_modulus)) {m = scalar_modulus}
                        (omega arith),
                  )))))
            (double-Stands (
              double-Stands (
                add-Stands h (
                  scalar_mul-Stands challenge k (
                    omega
                      (arith, hashed-lt (s.commitment_encoding ++ (key.encoded ++ message))))))))).1
          (ap (λ t. sum (sum t t) (sum t t)) same)))
    where
      challenge : Scalar
      challenge = hashed (s.commitment_encoding ++ (key.encoded ++ message))

      same : times s.response base ≡ sum (times r base) (times challenge (times c base))
      same =
          times_congr s.response (r + challenge * c) (
            ap (λ t. t % scalar_modulus) e
            ∙ mod-mod (r + challenge * (c % scalar_modulus)) scalar_modulus
            ∙ sym (add-mod-mod r (challenge * (c % scalar_modulus)) scalar_modulus)
            ∙ ap (λ t. (r + t) % scalar_modulus) (mul-mod_right challenge c scalar_modulus)
            ∙ add-mod-mod r (challenge * c) scalar_modulus)
          ∙ times-add r (challenge * c) base base-OnAffine
          ∙ ap (sum (times r base)) (times-mul challenge c base base-OnAffine)

  -- Signing with the secret of a seed returns a signature.
  pub sign_expanded_total :
      (seed message : Bytes) (k : IsDerived seed)
      → (s : Signature) × (sign_expanded k.expanded message ≡ ok s)
  sign_expanded_total seed message k =
      let r = hash_to_scalar (nonce_hash k.expanded.prefix message) in
      let small = nonce_lem k.expanded.prefix message in
      let below : r < scalar_modulus = rw small (hashed-lt (k.expanded.prefix ++ message)) in
      let p = multiple-IsPublished r (omega (arith, below)) in
      let value = response_value k.expanded message p.bytes in
      (
        _,
        sign_expanded-steps k.expanded message p.bytes
              (multiple-is_prime_subgroup r
                (scalar_mul-Stands r basepoint-Stands (omega (arith, below))))
              p.encodes
            ∙ self_check-steps k.expanded message _ _
                (record { encoded = k.expanded.public_key; point = k.point })
                (assembled-parses p.bytes p.recovered _ p.total p.decodes
                  (rw value (mod-lt _ (omega arith))))
                (multiple-is_prime_subgroup r p.stands)
                ((key_iff _ _).1 (record {
                  total = k.total;
                  encoded = refl;
                  decodes = k.decodes;
                  nonidentity = k.nonidentity;
                  subgroup = k.subgroup;
                }))
                (verified_lem _ message _ r (clamped_secret seed) below p.stands k.stands (
                  value
                  ∙ ap₂
                      (λ n c.
                        (n + hashed (p.bytes ++ (k.expanded.public_key ++ message)) * c)
                        % scalar_modulus)
                      (sym small) (derive-ok seed k.expanded k.derived).reduced_scalar)),
      )
