-- ===== src/Signature/Trace/Agreement.antt =====
-- signature.rs: the trace keeps the values of the signing path itself.
use ed301_eddsa.Base.{◌≡◌, sym, ap, ◌∙◌, [], some}
use ed301_eddsa.Base.Bytes.{Bytes}
use ed301_eddsa.Base.Results.{ok, ok_inj, >>=-eq-ok, ok_or-ok, fail_if-ok}
use ed301_eddsa.Libraries.Bigint.{Bigint}
use ed301_eddsa.Libraries.Xof.{Xof}
use ed301_eddsa.Scalar
use ed301_eddsa.Edwards
use ed301_eddsa.Edwards.{EdwardsPoint}
use ed301_eddsa.SignatureHash.{expand_seed, nonce_hash, challenge_hash, hash_to_scalar}
use ed301_eddsa.Signature.Expanded.{ExpandedSecret, prune, prefix_of, derive}
use ed301_eddsa.Signature.Signing.{SigningKey, assemble, self_check, sign_expanded}
use ed301_eddsa.Signature.Signing.Formula.{self_check-ok}
use ed301_eddsa.Signature.Wire.{Signature}
use ed301_eddsa.Signature.Wire
use ed301_eddsa.Signature.Wire.Parse.{from_bytes-IsParsed}
use ed301_eddsa.Signature.Signing
use ed301_eddsa.Edwards.Encoded.{encode_eq_public}
use ed301_eddsa.Signature.OneShot
use ed301_eddsa.Parameters.{seed_bytes}
use ed301_eddsa.Base.{length}
use ed301_eddsa.Signature.OneShot.Sign.{from_seed-ok}
use ed301_eddsa.Signature.OneShot.Total.{sign-ok}
use ed301_eddsa.Signature.Trace.{Trace, trace}

module _ ⦃b : Bigint⦄ ⦃xof : Xof⦄ where
  -- The values on the path that `derive` and `sign_expanded` take.
  record IsPath (seed message : Bytes) (expanded : ExpandedSecret) (commitment : Bytes)
      : Type 0 where
    key_encoded :
        Edwards.encode (Edwards.scalar_mul_pruned Edwards.basepoint (prune (expand_seed seed)))
        ≡ some expanded.public_key
    reduced : expanded.reduced_scalar ≡ Scalar.reduce_pruned_le (prune (expand_seed seed))
    prefix : expanded.prefix ≡ prefix_of (expand_seed seed)
    committed :
        Edwards.encode (
          Edwards.scalar_mul Edwards.basepoint
            (hash_to_scalar (nonce_hash (prefix_of (expand_seed seed)) message)))
        ≡ some commitment

  traced : (seed message : Bytes) → ExpandedSecret → Bytes → Trace
  traced seed message expanded commitment =
      let nonce_hash = nonce_hash expanded.prefix message in
      let nonce = hash_to_scalar nonce_hash in
      let challenge_hash = challenge_hash commitment expanded.public_key message in
      let challenge = hash_to_scalar challenge_hash in
      let response = Scalar.add nonce (Scalar.mul challenge expanded.reduced_scalar) in
      record {
        expanded_hash = expand_seed seed;
        pruned_scalar = prune (expand_seed seed);
        prefix = expanded.prefix;
        public_key = expanded.public_key;
        nonce_hash = nonce_hash;
        nonce_scalar = Scalar.canonical_bytes nonce;
        commitment = commitment;
        challenge_hash = challenge_hash;
        challenge_scalar = Scalar.canonical_bytes challenge;
        response = Scalar.canonical_bytes response;
        signature = assemble commitment response;
      }

  trace-IsPath :
      {seed message : Bytes} {expanded : ExpandedSecret} {commitment : Bytes}
      → IsPath seed message expanded commitment
      → trace seed message ≡ some (traced seed message expanded commitment)
  unfolding trace traced assemble Scalar.canonical_bytes
  trace-IsPath k = rw (k.key_encoded, k.committed, k.prefix, k.reduced)

  derive-path :
      (seed : Bytes) (expanded : ExpandedSecret)
      → derive seed ≡ ok expanded
      → (Edwards.encode (Edwards.scalar_mul_pruned Edwards.basepoint (prune (expand_seed seed)))
          ≡ some expanded.public_key)
        × (expanded.reduced_scalar ≡ Scalar.reduce_pruned_le (prune (expand_seed seed)))
        × (expanded.prefix ≡ prefix_of (expand_seed seed))
  unfolding derive
  derive-path seed expanded h =
      let (valid, h1) = fail_if-ok _ _ _ h in
      let (public_key, e, h2) = >>=-eq-ok _ _ h1 in
      let same = ok_inj h2 in
      (
        encode_eq_public _ ∙ ok_or-ok _ _ e ∙ ap (λ t. some t.public_key) same,
        ap (λ t. t.reduced_scalar) (sym same),
        ap (λ t. t.prefix) (sym same),
      )

  sign_expanded-path :
      (expanded : ExpandedSecret) (message : Bytes) {s : Signature}
      → sign_expanded expanded message ≡ ok s
      → (commitment : Bytes) × (Edwards.encode (
            Edwards.scalar_mul Edwards.basepoint
              (hash_to_scalar (nonce_hash expanded.prefix message)))
          ≡ some commitment)
        × (s.encoded ≡ (traced [] message expanded commitment).signature)
  unfolding sign_expanded traced
  sign_expanded-path expanded message h =
      let (member, h1) = fail_if-ok _ _ _ h in
      let (commitment, e, h2) = >>=-eq-ok _ _ h1 in
      let (parses, checked) = self_check-ok expanded message _ h2 in
      (commitment, encode_eq_public _ ∙ ok_or-ok _ _ e, (from_bytes-IsParsed parses).encoded)

  trace-sign_ok :
      (seed message signature : Bytes)
      → OneShot.sign seed message ≡ ok signature
      → (t : Trace) × (trace seed message ≡ some t) × (t.signature ≡ signature)
  unfolding OneShot.sign Signing.sign Wire.to_bytes
  trace-sign_ok seed message signature h =
      let (key, e, h1) = >>=-eq-ok _ _ h in
      let (parsed, s, h2) = >>=-eq-ok _ _ h1 in
      let (expanded, d, h3) = >>=-eq-ok _ _ s in
      let same = (from_seed-ok seed key e).1 in
      let (encodes, reduced, prefix) = derive-path seed expanded (ap derive (sym same) ∙ d) in
      let (commitment, c, whole) = sign_expanded-path expanded message h3 in
      let k : IsPath seed message expanded commitment = record {
        key_encoded = encodes;
        reduced = reduced;
        prefix = prefix;
        committed =
            ap
              (λ t.
                Edwards.encode
                  (Edwards.scalar_mul Edwards.basepoint (hash_to_scalar (nonce_hash t message))))
              (sym prefix)
            ∙ c;
      } in
      (
        traced seed message expanded commitment,
        trace-IsPath k,
        unfold traced in (sym whole ∙ ok_inj h2),
      )

  -- For a seed of 38 bytes and any message, the trace ends, and the signature it keeps is the one
  -- that signing returns.
  pub trace-sign :
      (seed message : Bytes)
      → length seed ≡ seed_bytes
      → (t : Trace) × (trace seed message ≡ some t) × (OneShot.sign seed message ≡ ok t.signature)
  trace-sign seed message n =
      let (signature, signed) = sign-ok seed message n in
      let (t, traced, same) = trace-sign_ok seed message signature signed in
      (t, traced, signed ∙ ap ok (sym same))
