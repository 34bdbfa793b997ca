-- ===== src/Signature/Wire/Parse.antt =====
-- signature.rs: what `Signature::from_bytes` accepts.
use ed301_eddsa.Base.{◌≡◌, ◌↔◌, true, refl, sym, ap, ap₂, ◌∙◌, ◌<◌, ◌++◌, some, arith}
use ed301_eddsa.Base.{length, take, drop, replicate, length-take, length-drop, take-append-drop}
use ed301_eddsa.Base.Bytes.{Bytes, IsBytes, IsArray, IsBytes-take, IsBytes-drop}
use ed301_eddsa.Base.Results.{
  Result, ok, ◌>>=◌, ok_or, to_array, ok_inj, >>=-eq-ok, ok_or-ok, to_array-some, to_array_exact,
}
use ed301_eddsa.Parameters.{field_bytes, signature_bytes, scalar_modulus, scalar_bytes}
use ed301_eddsa.Libraries.Bigint.{Bigint}
use ed301_eddsa.Scalar
use ed301_eddsa.Scalar.Codec.{write-from_canonical_bytes}
use ed301_eddsa.Edwards
use ed301_eddsa.Edwards.OnCurve.{IsOnCurve}
use ed301_eddsa.Edwards.Codec.{encode-decode, decode_injective}
use ed301_eddsa.Signature.Error.{SignatureError, invalid_signature}
use ed301_eddsa.Signature.Wire.{Signature, from_bytes, to_bytes}

module _ ⦃b : Bigint⦄ where
  pub record IsParsed (bytes : Bytes) (s : Signature) : Type 0 where
    pub total : length bytes ≡ signature_bytes
    pub encoded : s.encoded ≡ bytes
    pub commitment_encoding : s.commitment_encoding ≡ take field_bytes bytes
    pub commitment : Edwards.decode (take field_bytes bytes) ≡ some s.commitment
    pub response : Scalar.from_canonical_bytes (drop field_bytes bytes) ≡ some s.response

  pub from_bytes-IsParsed :
      {bytes : Bytes} {s : Signature} → from_bytes bytes ≡ ok s → IsParsed bytes s
  unfolding from_bytes
  from_bytes-IsParsed {bytes} {s} h =
      let (encoded, e1, h1) = >>=-eq-ok _ _ h in
      let (commitment_encoding, e2, h2) = >>=-eq-ok _ _ h1 in
      let (response_encoding, e3, h3) = >>=-eq-ok _ _ h2 in
      let (commitment, e4, h4) = >>=-eq-ok _ _ h3 in
      let (response, e5, h5) = >>=-eq-ok _ _ h4 in
      let (total, same) = to_array-some _ _ (ok_or-ok _ _ e1) in
      let first = (to_array-some _ _ (ok_or-ok _ _ e2)).1 ∙ ap (λ t. take field_bytes t) same in
      let second = (to_array-some _ _ (ok_or-ok _ _ e3)).1 ∙ ap (λ t. drop field_bytes t) same in
      record {
        total = total;
        encoded = ap (λ t. t.encoded) (sym (ok_inj h5)) ∙ same;
        commitment_encoding = ap (λ t. t.commitment_encoding) (sym (ok_inj h5)) ∙ first;
        commitment =
            ap Edwards.decode (sym first)
            ∙ ok_or-ok _ _ e4
            ∙ ap (λ t. some t.commitment) (ok_inj h5);
        response =
            ap Scalar.from_canonical_bytes (sym second)
            ∙ ok_or-ok _ _ e5
            ∙ ap (λ t. some t.response) (ok_inj h5);
      }

  -- The parser accepts exactly the strings of 76 bytes whose first half decodes as a point and
  -- whose second half decodes as a scalar, and the signature holds the string and what they decode
  -- to.
  pub parse_iff : (bytes : Bytes) (s : Signature) → (from_bytes bytes ≡ ok s) ↔ IsParsed bytes s
  unfolding from_bytes
  parse_iff bytes s = (
    from_bytes-IsParsed,
    λ k.
        let half : length (take field_bytes bytes) ≡ field_bytes =
          omega (arith, length-take field_bytes bytes, k.total) in
        let other : length (drop field_bytes bytes) ≡ field_bytes =
          omega (arith, length-drop field_bytes bytes, k.total) in
        ap (λ m. ok_or m invalid_signature >>= with_encoded)
          (to_array_exact signature_bytes bytes k.total)
        ∙ ap (λ m. ok_or m invalid_signature >>= with_commitment bytes)
            (to_array_exact field_bytes _ half)
        ∙ ap (λ m. ok_or m invalid_signature >>= with_response bytes (take field_bytes bytes))
            (to_array_exact field_bytes _ other)
        ∙ ap
            (λ m. ok_or m invalid_signature >>= λ commitment.
              ok_or (Scalar.from_canonical_bytes (drop field_bytes bytes)) invalid_signature
              >>= λ response. ok (made bytes (take field_bytes bytes) commitment response))
            k.commitment
        ∙ ap
            (λ m. ok_or m invalid_signature >>= λ response.
              ok (made bytes (take field_bytes bytes) s.commitment response))
            k.response
        ∙ ap₂ (λ e c. ok (made e c s.commitment s.response)) (sym k.encoded)
            (sym k.commitment_encoding),
  )
    where
      made : Bytes → Bytes → Edwards.EdwardsPoint → Scalar.Scalar → Signature
      made encoded commitment_encoding commitment response = record {
        encoded = encoded;
        commitment_encoding = commitment_encoding;
        commitment = commitment;
        response = response;
      }

      with_response : Bytes → Bytes → Bytes → Result SignatureError Signature
      with_response encoded commitment_encoding response_encoding =
          ok_or (Edwards.decode commitment_encoding) invalid_signature >>= λ commitment.
          ok_or (Scalar.from_canonical_bytes response_encoding) invalid_signature >>= λ response.
          ok (made encoded commitment_encoding commitment response)

      with_commitment : Bytes → Bytes → Result SignatureError Signature
      with_commitment encoded commitment_encoding =
          ok_or (to_array field_bytes (drop field_bytes encoded)) invalid_signature
          >>= with_response encoded commitment_encoding

      with_encoded : Bytes → Result SignatureError Signature
      with_encoded encoded =
          ok_or (to_array field_bytes (take field_bytes encoded)) invalid_signature
          >>= with_commitment encoded

  pub IsArray-halves :
      (bytes : Bytes)
      → IsArray signature_bytes bytes
      → IsArray field_bytes (take field_bytes bytes) × IsArray scalar_bytes (drop field_bytes bytes)
  IsArray-halves bytes (n, h) = (
    (omega (arith, length-take field_bytes bytes, n), IsBytes-take field_bytes bytes h),
    (omega (arith, length-drop field_bytes bytes, n), IsBytes-drop field_bytes bytes h),
  )

  -- For a string of bytes that parses as a signature, the commitment is on the curve and the
  -- response below L, the bytes come back from to_bytes, and they are the encoding of the
  -- commitment followed by that of the response.
  pub parsed_canonical :
      (bytes : Bytes) (s : Signature)
      → IsBytes bytes
      → from_bytes bytes ≡ ok s
      → (to_bytes s ≡ bytes)
        × IsOnCurve s.commitment
        × (s.response < scalar_modulus)
        × (Edwards.encode s.commitment ≡ some s.commitment_encoding)
        × (bytes ≡ s.commitment_encoding ++ Scalar.canonical_bytes s.response)
  unfolding to_bytes Scalar.canonical_bytes
  parsed_canonical bytes s h e =
      let k = from_bytes-IsParsed e in
      let (first, second) = IsArray-halves bytes (k.total, h) in
      let (encodes, public_encodes, on_curve) = encode-decode _ _ first k.commitment in
      let (below, writes) =
        (write-from_canonical_bytes _ (replicate scalar_bytes 0) second refl).0 _ k.response in
      (
        k.encoded,
        on_curve,
        below,
        encodes ∙ ap some (sym k.commitment_encoding),
        sym (take-append-drop field_bytes bytes)
            ∙ ap₂ ◌++◌ (sym k.commitment_encoding) (sym writes),
      )

  -- Two strings of bytes that parse as signatures with equal responses and with commitments that
  -- compare as equal are the same string.
  pub from_bytes_injective :
      (bytes others : Bytes) (s t : Signature)
      → IsBytes bytes
      → IsBytes others
      → from_bytes bytes ≡ ok s
      → from_bytes others ≡ ok t
      → Edwards.ct_eq s.commitment t.commitment ≡ true
      → s.response ≡ t.response
      → bytes ≡ others
  from_bytes_injective bytes others s t h k d e same_commitment same_response =
      let p = from_bytes-IsParsed d in
      let q = from_bytes-IsParsed e in
      let (n, x, y, z, split) = parsed_canonical bytes s h d in
      let (m, u, v, w, split_other) = parsed_canonical others t k e in
      split
      ∙ ap₂ (λ c r. c ++ Scalar.canonical_bytes r)
          (p.commitment_encoding
            ∙ decode_injective _ _ _ _ (IsArray-halves bytes (p.total, h)).0
                (IsArray-halves others (q.total, k)).0 p.commitment q.commitment same_commitment
            ∙ sym q.commitment_encoding)
          same_response
      ∙ sym split_other
