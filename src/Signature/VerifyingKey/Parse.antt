-- ===== src/Signature/VerifyingKey/Parse.antt =====
-- signature.rs: the public keys that `VerifyingKey::from_bytes` accepts.
use ed301_eddsa.Base.{
  ◌≡◌, ◌↔◌, sym, ap, ap₂, ◌∙◌, some, true, not, ◌&&◌, and-eq-true, not-eq-true, false,
}
use ed301_eddsa.Base.{length, ◌>>=◌}
use ed301_eddsa.Base.Bytes.{Bytes, IsBytes}
use ed301_eddsa.Base.Results.{
  ok, err, ok_or, to_array, ok_inj, >>=-eq-ok, ok_or-ok, fails_with, ok-not_err, to_array-some,
  to_array_exact,
}
use ed301_eddsa.Base.Results
use ed301_eddsa.Parameters.{public_key_bytes}
use ed301_eddsa.Libraries.Bigint.{Bigint}
use ed301_eddsa.Edwards
use ed301_eddsa.Edwards.{EdwardsPoint, refuse_if}
use ed301_eddsa.Edwards.OnCurve.{IsOnCurve}
use ed301_eddsa.Edwards.Codec.{encode-decode, decode_injective}
use ed301_eddsa.Edwards.Decoded.{decode_strict-decode}
use ed301_eddsa.Signature.Error.{SignatureError, invalid_public_key}
use ed301_eddsa.Signature.VerifyingKey.{VerifyingKey, from_bytes, to_bytes}

module _ ⦃b : Bigint⦄ where
  -- A full public-key validation, on the bytes and on the point they stand for.
  pub record IsKey (bytes : Bytes) (key : VerifyingKey) : Type 0 where
    pub total : length bytes ≡ public_key_bytes
    pub encoded : key.encoded ≡ bytes
    pub decodes : Edwards.decode bytes ≡ some key.point
    pub nonidentity : Edwards.is_identity key.point ≡ false
    pub subgroup : Edwards.is_prime_subgroup key.point ≡ true

  pub decode_strict_iff :
      (bytes : Bytes) (p : EdwardsPoint)
      → (Edwards.decode_strict_subgroup bytes ≡ some p) ↔ (
          (Edwards.decode bytes ≡ some p)
          × (Edwards.is_identity p ≡ false)
          × (Edwards.is_prime_subgroup p ≡ true))
  unfolding Edwards.decode_strict_subgroup Edwards.is_prime_subgroup_nonidentity
  decode_strict_iff bytes p = (
    λ h.
        let (decodes, member) = decode_strict-decode bytes p h in
        let (other, subgroup) = and-eq-true _ _ member in (decodes, not-eq-true _ other, subgroup),
    λ (decodes, other, subgroup).
        ap
          (λ m. m >>= λ point.
            refuse_if (not (not (Edwards.is_identity point) && Edwards.is_prime_subgroup point))
              (some point))
          decodes
        ∙ ap₂ (λ c d. refuse_if (not (not c && d)) (some p)) other subgroup,
  )

  -- A key is accepted exactly if it is 38 bytes that decode to a point other than the identity on
  -- which the order of the prime subgroup gives the identity, and the key holds the bytes and the
  -- point.
  pub key_iff : (bytes : Bytes) (key : VerifyingKey) → (from_bytes bytes ≡ ok key) ↔ IsKey bytes key
  unfolding from_bytes
  key_iff bytes key = (
    λ h.
        let (encoded, e1, h1) = >>=-eq-ok _ _ h in
        let (point, e2, h2) = >>=-eq-ok _ _ h1 in
        let (total, same) = to_array-some _ _ (ok_or-ok _ _ e1) in
        let (decodes, other, subgroup) = (decode_strict_iff bytes key.point).0 (
          ap Edwards.decode_strict_subgroup (sym same)
          ∙ ok_or-ok _ _ e2
          ∙ ap (λ t. some t.point) (ok_inj h2)) in
        record {
          total = total;
          encoded = ap (λ t. t.encoded) (sym (ok_inj h2)) ∙ same;
          decodes = decodes;
          nonidentity = other;
          subgroup = subgroup;
        },
    λ k.
        ap
          (λ m. Results.◌>>=◌ (ok_or m invalid_public_key) λ encoded.
            Results.◌>>=◌ (ok_or (Edwards.decode_strict_subgroup encoded) invalid_public_key)
              λ point. ok (made encoded point))
          (to_array_exact public_key_bytes bytes k.total)
        ∙ ap (λ m. Results.◌>>=◌ (ok_or m invalid_public_key) λ point. ok (made bytes point))
            ((decode_strict_iff bytes key.point).1 (k.decodes, k.nonidentity, k.subgroup))
        ∙ ap (λ e. ok (made e key.point)) (sym k.encoded),
  )
    where
      made : Bytes → EdwardsPoint → VerifyingKey
      made encoded point = record { encoded = encoded; point = point }

  -- The point of an accepted key, given as bytes, is on the curve, is not the identity, and is
  -- encoded as the bytes of the key, which come back from to_bytes.
  pub key_canonical :
      (bytes : Bytes) (key : VerifyingKey)
      → IsBytes bytes
      → from_bytes bytes ≡ ok key
      → (to_bytes key ≡ bytes)
        × IsOnCurve key.point
        × (Edwards.is_identity key.point ≡ false)
        × (Edwards.encode key.point ≡ some bytes)
  unfolding to_bytes
  key_canonical bytes key h e =
      let k = (key_iff bytes key).0 e in
      let (encodes, public_encodes, on_curve) =
        encode-decode bytes key.point (k.total, h) k.decodes in
      (k.encoded, on_curve, k.nonidentity, encodes)

  -- Two accepted byte strings whose key points compare as equal are the same bytes.
  pub keys_injective :
      (bytes others : Bytes) (key other : VerifyingKey)
      → IsBytes bytes
      → IsBytes others
      → from_bytes bytes ≡ ok key
      → from_bytes others ≡ ok other
      → Edwards.ct_eq key.point other.point ≡ true
      → bytes ≡ others
  keys_injective bytes others key other h k d e same =
      let p = (key_iff bytes key).0 d in
      let q = (key_iff others other).0 e in
      decode_injective bytes others key.point other.point (p.total, h) (q.total, k) p.decodes
        q.decodes same

  -- The only error of importing a public key is that the public key is invalid.
  pub key_error :
      (bytes : Bytes) {e : SignatureError} → from_bytes bytes ≡ err e → e ≡ invalid_public_key
  unfolding from_bytes
  key_error bytes h =
      fails_with (to_array public_key_bytes bytes) h
        λ encoded h. fails_with (Edwards.decode_strict_subgroup encoded) h λ point h. ok-not_err h
