-- ===== src/Field/UnitTests.antt =====
-- field.rs: the unit tests in the file. A test is true where it passes; a failed assertion and a
-- failed `expect_copied` are false.
use ed301_eddsa.Base.{
  ℕ, zero, suc, ◌+◌, ◌-◌, ◌*◌, ◌%◌, ◌^◌, ◌==◌, ltb, Bool, true, false, not, ◌&&◌, if◌then◌else◌,
  Option, none, some, ◌>>=◌,
}
use ed301_eddsa.Base.{take, replicate, get_or, set, bit_or}
use ed301_eddsa.Base.Bytes.{Bytes}
use ed301_eddsa.Base.Text.{codes, same_bytes}
use ed301_eddsa.Base.Copies.{copy_into}
use ed301_eddsa.Parameters.{field_bytes, field_modulus}
use ed301_eddsa.Libraries.Bigint.{Bigint}
use ed301_eddsa.Field.{
  FieldElement, zero_element, one_element, from_canonical_bytes, from_u64, to_canonical_bytes, add,
  sub, neg, mul, square, invert, sqrt, is_odd, ct_eq, is_zero, conditional_swap, conditional_select,
}

unfoldable pub hex_nibble : ℕ → Option ℕ
hex_nibble value =
    if not (ltb value 48) && not (ltb 57 value)
    then some (value - 48)
    else if not (ltb value 97) && not (ltb 102 value)
    then some (value - 97 + 10)
    else none

-- The loop of `hex_le_38` for `left` indices from `i` on.
unfoldable pub hex_le_from : ℕ → ℕ → Bytes → Bytes → Option Bytes
hex_le_from zero i hex output = some output
hex_le_from (suc left) i hex output = hex_nibble (get_or hex (i * 2) 0) >>= λ high.
    hex_nibble (get_or hex (i * 2 + 1) 0) >>= λ low.
    hex_le_from left (i + 1) hex (set output i (bit_or (high * 2 ^ 4 % 256) low))

unfoldable pub hex_le_38 : Bytes → Option Bytes
hex_le_38 hex = hex_le_from field_bytes 0 hex (replicate field_bytes 0)

abbrev pub base_u_bytes : Option Bytes
base_u_bytes =
    hex_le_38 (codes "5ba6f0f4ccc6ff5f018a2496fe165eb7d1893949fe3d05f79c12d2bd99952cd42d2ae9546308")

abbrev pub is_none : {A : Type 0} → Option A → Bool
is_none none = true
is_none (some a) = false

-- The value of an option, or the end of the test.
abbrev pub expecting : {A : Type 0} → Option A → (A → Bool) → Bool
expecting none rest = false
expecting (some a) rest = rest a

-- `MODULUS.wrapping_sub(&U320::ONE)`.
abbrev modulus_minus_one : ℕ
modulus_minus_one = (field_modulus + 2 ^ 320 - 1) % 2 ^ 320

module _ ⦃b : Bigint⦄ where
  unfoldable pub le38 : ℕ → Bytes
  le38 integer =
      let encoded = b.to_le_bytes integer in
      copy_into 0 (take field_bytes encoded) (replicate field_bytes 0)

  recoded : Bytes → Bool
  recoded bytes =
      expecting (from_canonical_bytes bytes)
        λ element. same_bytes (to_canonical_bytes element) bytes

  unfoldable pub strict_decode_accepts_boundaries_and_basepoint_u : Bool
  unfolding recoded
  strict_decode_accepts_boundaries_and_basepoint_u =
      recoded (replicate field_bytes 0)
      && (recoded (le38 modulus_minus_one) && expecting base_u_bytes recoded)

  with_high_bit : ℕ → Bytes
  with_high_bit high_bit = set (replicate field_bytes 0) (field_bytes - 1) high_bit

  unfoldable pub strict_decode_rejects_modulus_and_reserved_bits : Bool
  unfolding with_high_bit
  strict_decode_rejects_modulus_and_reserved_bits =
      is_none (from_canonical_bytes (le38 field_modulus))
      && (is_none (from_canonical_bytes (with_high_bit 0x20))
          && (is_none (from_canonical_bytes (with_high_bit 0x40))
              && is_none (from_canonical_bytes (with_high_bit 0x80))))

  first_byte : FieldElement → ℕ
  first_byte x = get_or (to_canonical_bytes x) 0 0

  unfoldable pub arithmetic_reduces_modulo_p : Bool
  unfolding first_byte
  arithmetic_reduces_modulo_p =
      let five = from_u64 5 in
      let seven = from_u64 7 in
      (first_byte (add five seven) == 12)
      && ((first_byte (mul five seven) == 35)
          && ((first_byte (square five) == 25)
              && ((first_byte (add (sub five seven) seven) == 5)
                  && (is_zero (add (neg five) five)
                      && expecting (from_canonical_bytes (le38 modulus_minus_one))
                          λ top. is_zero (add top one_element)))))

  unfoldable pub inversion_is_total_only_for_nonzero_values : Bool
  inversion_is_total_only_for_nonzero_values =
      let five = from_u64 5 in
      expecting (invert five)
        λ inverse. ct_eq (mul five inverse) one_element && is_none (invert zero_element)

  unfoldable pub conditional_swap_obeys_choice : Bool
  conditional_swap_obeys_choice =
      let one = one_element in
      let two = from_u64 2 in
      let (left, right) = conditional_swap one two false in
      let (left', right') = conditional_swap left right true in
      ct_eq left one && (ct_eq right two && (ct_eq left' two && ct_eq right' one))

  unfoldable pub square_root_is_verified_and_canonical_parity_is_reported : Bool
  square_root_is_verified_and_canonical_parity_is_reported =
      let five = from_u64 5 in
      let seven = from_u64 7 in
      expecting (sqrt (square five)) λ root.
        ct_eq (square root) (square five)
        && (ct_eq root five
            && (expecting (sqrt (square seven)) (λ r. ct_eq r seven)
                && (expecting (sqrt zero_element) (λ r. is_zero r)
                    && (expecting (sqrt one_element) (λ r. ct_eq r one_element)
                        && (is_odd five
                            && (not (is_odd (from_u64 6)) && is_none (sqrt (from_u64 2))))))))

  unfoldable pub conditional_selection_obeys_choice : Bool
  conditional_selection_obeys_choice =
      let five = from_u64 5 in
      let seven = from_u64 7 in
      ct_eq (conditional_select five seven false) five
      && ct_eq (conditional_select five seven true) seven
