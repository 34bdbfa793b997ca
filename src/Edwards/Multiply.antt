-- ===== src/Edwards/Multiply.antt =====
-- edwards.rs: scalar multiplication, double-and-add-always over a reader of bits.
use ed301_eddsa.Base.{ℕ, zero, suc, ◌/◌, ◌^◌, ◌%◌, ◌==◌, Bool, not, ◌&&◌, get_or, bit_and}
use ed301_eddsa.Base.Bytes.{Bytes}
use ed301_eddsa.Parameters.{field_bits}
use ed301_eddsa.Libraries.Bigint.{Bigint}
use ed301_eddsa.Scalar.{Scalar}
use ed301_eddsa.Scalar
use ed301_eddsa.Edwards.Point.{
  EdwardsPoint, prime_order_bytes, identity, add, double, is_identity, conditional_select,
}

-- `Choice::from_u8_lsb(scalar[bit_index >> 3] >> (bit_index & 7))`.
unfoldable pub encoded_bit : Bytes → ℕ → Bool
encoded_bit scalar bit_index =
    get_or scalar (bit_index / 2 ^ 3) 0 / 2 ^ bit_and bit_index 7 % 2 == 1

module _ ⦃b : Bigint⦄ where
  -- The rounds that are left at `bit_index`.
  unfoldable pub rounds_from : EdwardsPoint → (ℕ → Bool) → ℕ → EdwardsPoint → EdwardsPoint
  rounds_from self scalar_bit zero accumulator = accumulator
  rounds_from self scalar_bit (suc bit_index) accumulator =
      let doubled = double accumulator in
      let added = add doubled self in
      let bit = scalar_bit bit_index in
      rounds_from self scalar_bit bit_index (conditional_select doubled added bit)

  unfoldable pub scalar_mul_with : EdwardsPoint → (ℕ → Bool) → EdwardsPoint
  scalar_mul_with self scalar_bit = rounds_from self scalar_bit field_bits identity

  unfoldable pub scalar_mul : EdwardsPoint → Scalar → EdwardsPoint
  scalar_mul self scalar = scalar_mul_with self (λ bit_index. Scalar.bit scalar bit_index)

  unfoldable pub scalar_mul_encoded : EdwardsPoint → Bytes → EdwardsPoint
  scalar_mul_encoded self scalar = scalar_mul_with self (λ bit_index. encoded_bit scalar bit_index)

  unfoldable pub scalar_mul_pruned : EdwardsPoint → Bytes → EdwardsPoint
  scalar_mul_pruned self scalar = scalar_mul_encoded self scalar

  unfoldable pub is_prime_subgroup : EdwardsPoint → Bool
  is_prime_subgroup self = is_identity (scalar_mul_encoded self prime_order_bytes)

  unfoldable pub is_prime_subgroup_nonidentity : EdwardsPoint → Bool
  is_prime_subgroup_nonidentity self = not (is_identity self) && is_prime_subgroup self
