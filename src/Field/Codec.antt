-- ===== src/Field/Codec.antt =====
-- field.rs: canonical decoding and encoding.
use native.Mathlib.Nat.{mod-eq_of_lt}
use ed301_eddsa.Base.{◌+◌, ◌^◌, ◌≤◌, ◌<◌, arith, ltb, ltb→lt, lt→ltb}
use ed301_eddsa.Base.{◌≡◌, ◌↔◌, sym, ap, ◌∙◌, false, none, some, [], ◌∷◌}
use ed301_eddsa.Base.{length, take, replicate, ct_option, ct_option-some, ct_option-none}
use ed301_eddsa.Base.{length-append}
use ed301_eddsa.Base.Bytes.{
  Bytes, IsArray, le_value, le_bytes, IsBytes-append, length-le_bytes, le_bytes-IsBytes,
  le_value-le_bytes, le_bytes-le_value, le_value-append, take-le_bytes,
}
use ed301_eddsa.Base.Copies.{copy_into, copy_into_zeros, copy_into_all}
use ed301_eddsa.Parameters.{field_modulus, field_bytes, u320_bytes}
use ed301_eddsa.Libraries.Bigint.{Bigint}
use ed301_eddsa.Field.{FieldElement, from_canonical_bytes, to_canonical_bytes}

-- Two zero bytes behind a 38-byte string make it as wide as a `U320`, with the same value.
pub widened_lem :
    (bs : Bytes)
    → IsArray field_bytes bs
    → IsArray u320_bytes (copy_into 0 bs (replicate u320_bytes 0))
      × (le_value (copy_into 0 bs (replicate u320_bytes 0)) ≡ le_value bs)
widened_lem bs (n, h) =
    rw (copy_into_zeros bs u320_bytes, n)
      (
        (
          length-append bs (0 ∷ 0 ∷ []) ∙ ap (λ t. t + 2) n,
          IsBytes-append bs (0 ∷ 0 ∷ []) h (omega arith),
        ),
        omega (arith, le_value-append bs (0 ∷ 0 ∷ [])),
      )

module _ ⦃b : Bigint⦄ where
  -- Decoding reads the little-endian number, and accepts exactly the numbers below p.
  pub from_canonical_bytes_lem :
      (bs : Bytes)
      → IsArray field_bytes bs
      → from_canonical_bytes bs
        ≡ ct_option (b.field_form.new (le_value bs)) (ltb (le_value bs) field_modulus)
  unfolding from_canonical_bytes
  from_canonical_bytes_lem bs h =
      let (wide, e) = widened_lem bs h in
      ap (λ n. ct_option (b.field_form.new n) (b.ct_lt n field_modulus))
        (b.from_le_slice_lem _ wide ∙ e)
      ∙ ap (ct_option (b.field_form.new (le_value bs))) (b.ct_lt_lem (le_value bs) field_modulus)

  retrieve-lt_width : (x : FieldElement) → b.field_form.retrieve x < 2 ^ 320
  retrieve-lt_width x = omega (arith, b.field_form.retrieve-lt x)

  pub to_canonical_bytes_lem :
      (x : FieldElement) → to_canonical_bytes x ≡ le_bytes field_bytes (b.field_form.retrieve x)
  unfolding to_canonical_bytes
  to_canonical_bytes_lem x =
      copy_into_all _ field_bytes
        (ap length e ∙ length-le_bytes field_bytes (b.field_form.retrieve x))
      ∙ e
    where
      e :
          take field_bytes (b.to_le_bytes (b.field_form.retrieve x))
          ≡ le_bytes field_bytes (b.field_form.retrieve x)
      e =
          ap (take field_bytes) (b.to_le_bytes_lem (b.field_form.retrieve x) (retrieve-lt_width x))
          ∙ take-le_bytes field_bytes 2 (b.field_form.retrieve x)

  pub to_canonical_bytes-IsArray : (x : FieldElement) → IsArray field_bytes (to_canonical_bytes x)
  to_canonical_bytes-IsArray x = rw (to_canonical_bytes_lem x) (
    length-le_bytes field_bytes (b.field_form.retrieve x),
    le_bytes-IsBytes field_bytes (b.field_form.retrieve x),
  )

  -- Decoding succeeds only on the encoding of what it returns, and refuses only numbers from p on.
  pub to_canonical_bytes-from :
      (bs : Bytes)
      → IsArray field_bytes bs
      → ((x : FieldElement) → from_canonical_bytes bs ≡ some x → to_canonical_bytes x ≡ bs)
        × (from_canonical_bytes bs ≡ none → field_modulus ≤ le_value bs)
  to_canonical_bytes-from bs h = (
    λ x e.
        let (fits, same) = ct_option-some _ _ (sym (from_canonical_bytes_lem bs h) ∙ e) in
        to_canonical_bytes_lem x
        ∙ ap (le_bytes field_bytes) (
            ap b.field_form.retrieve (sym same)
            ∙ b.field_form.retrieve-new (le_value bs)
            ∙ mod-eq_of_lt (ltb→lt _ _ fits))
        ∙ ap (λ n. le_bytes n (le_value bs)) (sym h.0)
        ∙ le_bytes-le_value bs h.1,
    λ e. not_below (ct_option-none _ _ (sym (from_canonical_bytes_lem bs h) ∙ e)),
  )
    where
      not_below : ltb (le_value bs) field_modulus ≡ false → field_modulus ≤ le_value bs
      not_below k = ground arith

  value-to_canonical_bytes :
      (x : FieldElement) → le_value (to_canonical_bytes x) ≡ b.field_form.retrieve x
  value-to_canonical_bytes x =
      ap le_value (to_canonical_bytes_lem x)
      ∙ le_value-le_bytes field_bytes (b.field_form.retrieve x)
          (omega (arith, b.field_form.retrieve-lt x))

  -- Every field element decodes from its encoding.
  pub from_canonical_bytes-to :
      (x : FieldElement) → from_canonical_bytes (to_canonical_bytes x) ≡ some x
  from_canonical_bytes-to x =
      from_canonical_bytes_lem (to_canonical_bytes x) (to_canonical_bytes-IsArray x)
      ∙ ap (λ n. ct_option (b.field_form.new n) (ltb n field_modulus)) (value-to_canonical_bytes x)
      ∙ ap (ct_option _) (lt→ltb _ _ (b.field_form.retrieve-lt x))
      ∙ ap some (b.field_form.new-retrieve x)

  -- A string of 38 bytes decodes to a field element exactly if it is what encoding the element
  -- writes.
  pub field_decoding_iff :
      (bs : Bytes) (x : FieldElement)
      → IsArray field_bytes bs
      → (from_canonical_bytes bs ≡ some x) ↔ (to_canonical_bytes x ≡ bs)
  field_decoding_iff bs x h = (
    (to_canonical_bytes-from bs h).0 x,
    λ e. ap from_canonical_bytes (sym e) ∙ from_canonical_bytes-to x,
  )
