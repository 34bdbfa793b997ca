-- ===== src/Field.antt =====
-- crates/ed301-eddsa/src/field.rs: the field modulo p behind the library's Montgomery form.
pub mod Codec
pub mod Arith
pub mod Parity
pub mod Prime
pub mod Roots
pub mod UnitTests
use ed301_eddsa.Base.{ℕ, ◌*◌, Bool, ◌==◌, Option, List, take, replicate, get_or, ct_option, bit_and}
use ed301_eddsa.Base.Bytes.{Bytes}
use ed301_eddsa.Base.Copies.{copy_into}
use ed301_eddsa.Parameters.{field_bytes, u320_bytes, field_modulus}
use ed301_eddsa.Libraries.Bigint.{Bigint}

abbrev pub sqrt_exponent_bits : ℕ
sqrt_exponent_bits = 301

-- (p + 1) / 4.
abbrev pub sqrt_exponent : ℕ
sqrt_exponent = 0x7fffffffffffffffffffffffffffffffffffffffffffffffffe0000000000000000000000ed

module _ ⦃b : Bigint⦄ where
  abbrev pub FieldElement : Type 0
  FieldElement = b.field_form.Elem

  unfoldable pub zero_element : FieldElement
  zero_element = b.field_form.zero_elem

  unfoldable pub one_element : FieldElement
  one_element = b.field_form.one_elem

  unfoldable pub from_canonical_bytes : Bytes → Option FieldElement
  from_canonical_bytes bytes =
      let widened = copy_into 0 bytes (replicate u320_bytes 0) in
      let integer = b.from_le_slice widened in
      let is_canonical = b.ct_lt integer field_modulus in
      ct_option (b.field_form.new integer) is_canonical

  unfoldable pub from_u64 : ℕ → FieldElement
  from_u64 value = b.field_form.new value

  unfoldable pub from_canonical_uint : ℕ → FieldElement
  from_canonical_uint value = b.field_form.new value

  unfoldable pub from_canonical_words : List ℕ → FieldElement
  from_canonical_words words = from_canonical_uint (b.from_words words)

  unfoldable pub to_canonical_bytes : FieldElement → Bytes
  to_canonical_bytes self =
      let encoded = b.to_le_bytes (b.field_form.retrieve self) in
      copy_into 0 (take field_bytes encoded) (replicate field_bytes 0)

  unfoldable pub add : FieldElement → FieldElement → FieldElement
  add self rhs = b.field_form.add self rhs

  unfoldable pub sub : FieldElement → FieldElement → FieldElement
  sub self rhs = b.field_form.sub self rhs

  unfoldable pub neg : FieldElement → FieldElement
  neg self = b.field_form.neg self

  unfoldable pub mul : FieldElement → FieldElement → FieldElement
  mul self rhs = b.field_form.mul self rhs

  unfoldable pub square : FieldElement → FieldElement
  square self = b.field_form.square self

  unfoldable pub invert : FieldElement → Option FieldElement
  invert self = b.field_form.invert self

  unfoldable pub ct_eq : FieldElement → FieldElement → Bool
  ct_eq self rhs = b.field_form.ct_eq self rhs

  unfoldable pub sqrt : FieldElement → Option FieldElement
  sqrt self =
      let candidate = b.field_form.pow_bounded_exp self sqrt_exponent sqrt_exponent_bits in
      ct_option candidate (ct_eq (square candidate) self)

  unfoldable pub is_odd : FieldElement → Bool
  is_odd self = bit_and (get_or (to_canonical_bytes self) 0 0) 1 == 1

  unfoldable pub is_zero : FieldElement → Bool
  is_zero self = ct_eq self zero_element

  -- The two elements after the call.
  unfoldable pub conditional_swap : FieldElement → FieldElement → Bool → FieldElement × FieldElement
  conditional_swap left right choice =
      let original_left = left in
      let left' = b.field_form.ct_assign left right choice in
      let right' = b.field_form.ct_assign right original_left choice in (left', right')

  unfoldable pub conditional_select : FieldElement → FieldElement → Bool → FieldElement
  conditional_select when_false when_true choice =
      b.field_form.ct_assign when_false when_true choice
