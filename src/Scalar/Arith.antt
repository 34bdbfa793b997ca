-- ===== src/Scalar/Arith.antt =====
-- scalar.rs: sums, products and bits of scalars.
use native.Mathlib.Nat.{mod-lt, add-mod-mod}
use ed301_eddsa.Base.{ℕ, ◌+◌, ◌*◌, ◌/◌, ◌%◌, ◌^◌, ◌<◌, arith, ◌==◌, ◌≡◌, ap, ◌∙◌}
use ed301_eddsa.Base.Bytes.{Bytes, IsArray}
use ed301_eddsa.Parameters.{scalar_modulus, scalar_bytes, hash_bytes}
use ed301_eddsa.Libraries.Bigint.{Bigint}
use ed301_eddsa.Libraries.Montgomery.Residues.{new-mul}
use ed301_eddsa.Scalar.{Scalar, add, mul, bit, reduce_pruned_le, reduce_hash_le}
use ed301_eddsa.Scalar.Reduce.{reduce_pruned_le_lem, reduce_hash_le_lem}

module _ ⦃b : Bigint⦄ where
  pub add_lem :
      (x y : Scalar) → x < scalar_modulus → y < scalar_modulus → add x y ≡ (x + y) % scalar_modulus
  unfolding add
  add_lem x y h k = b.add_mod_lem x y scalar_modulus h k (omega arith)

  pub mul_lem : (x y : Scalar) → mul x y ≡ x * y % scalar_modulus
  unfolding mul
  mul_lem x y =
      ap b.scalar_form.retrieve (new-mul b.scalar_form.base x y)
      ∙ b.scalar_form.retrieve-new (x * y)

  pub bit_lem : (s : Scalar) (i : ℕ) → bit s i ≡ (s / 2 ^ i % 2 == 1)
  unfolding bit
  bit_lem = b.bit_lem

  -- For a nonce below L, adding to it the product of challenge and secret is the residue of nonce
  -- + challenge * secret modulo L.
  pub response_lem :
      (nonce challenge secret : Scalar)
      → nonce < scalar_modulus
      → add nonce (mul challenge secret) ≡ (nonce + challenge * secret) % scalar_modulus
  response_lem nonce challenge secret h =
      ap (add nonce) (mul_lem challenge secret)
      ∙ add_lem nonce _ h (mod-lt _ (omega arith))
      ∙ add-mod-mod nonce (challenge * secret) scalar_modulus

  pub reduce_hash_le-lt : (bs : Bytes) → IsArray hash_bytes bs → reduce_hash_le bs < scalar_modulus
  reduce_hash_le-lt bs h = rw (reduce_hash_le_lem bs h) (mod-lt _ (omega arith))

  pub reduce_pruned_le-lt :
      (bs : Bytes) → IsArray scalar_bytes bs → reduce_pruned_le bs < scalar_modulus
  reduce_pruned_le-lt bs h = rw (reduce_pruned_le_lem bs h) (mod-lt _ (omega arith))
