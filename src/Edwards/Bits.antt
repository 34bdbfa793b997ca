-- ===== src/Edwards/Bits.antt =====
-- edwards.rs: the readers of bits in `scalar_mul_encoded` and `scalar_mul`, and the encoded order.
use native.Mathlib.Nat.{pow-suc, div-div-eq-div-mul, zero-div}
use ed301_eddsa.Base.{ℕ, zero, suc, ◌+◌, ◌*◌, ◌/◌, ◌%◌, ◌^◌, ◌<◌, arith, ◌==◌, ==_iff, Bool}
use ed301_eddsa.Base.{◌≡◌, refl, sym, ap, ap₂, ◌∙◌, get_or, bit_and, [], ◌∷◌}
use ed301_eddsa.Base.Bytes.{Bytes, IsBytes, IsBytes_of, IsArray, le_value, pow-add}
use ed301_eddsa.Base.Bits.{all_below, all_below_sound}
use ed301_eddsa.Parameters.{field_bits, field_bytes, scalar_modulus}
use ed301_eddsa.Libraries.Bigint.{Bigint}
use ed301_eddsa.Scalar
use ed301_eddsa.Scalar.Arith.{bit_lem}
use ed301_eddsa.Edwards.{
  EdwardsPoint, encoded_bit, rounds_from, scalar_mul_with, scalar_mul, scalar_mul_encoded, add,
  double, conditional_select, is_identity, is_prime_subgroup, prime_order_bytes,
}

-- Byte `i` of the value.
get_or-value : (bs : Bytes) (i : ℕ) → IsBytes bs → get_or bs i 0 ≡ le_value bs / 256 ^ i % 256
get_or-value [] i h = ap (λ t. t % 256) (sym (zero-div (256 ^ i)))
get_or-value (b ∷ bs) zero h = omega (arith, h.0)
get_or-value (b ∷ bs) (suc i) h =
    get_or-value bs i h.1
    ∙ ap (λ t. t / 256 ^ i % 256) {x = le_value bs} {y = (b + 256 * le_value bs) / 256}
        (omega (arith, h.0))
    ∙ ap (λ t. t % 256) (div-div-eq-div-mul (b + 256 * le_value bs) 256 (256 ^ i))
    ∙ ap (λ t. (b + 256 * le_value bs) / t % 256) {x = 256 * 256 ^ i} (omega (arith, pow-suc 256 i))

low_bit : (x r : ℕ) → r < 8 → x % 256 / 2 ^ r % 2 ≡ x / 2 ^ r % 2
low_bit x zero h = omega arith
low_bit x (suc zero) h = omega arith
low_bit x (suc (suc zero)) h = omega arith
low_bit x (suc (suc (suc zero))) h = omega arith
low_bit x (suc (suc (suc (suc zero)))) h = omega arith
low_bit x (suc (suc (suc (suc (suc zero))))) h = omega arith
low_bit x (suc (suc (suc (suc (suc (suc zero)))))) h = omega arith
low_bit x (suc (suc (suc (suc (suc (suc (suc zero))))))) h = omega arith
low_bit x (suc (suc (suc (suc (suc (suc (suc (suc r)))))))) h = absurd (omega arith)

-- The low three bits of an index below 304, the number of bits in 38 bytes.
bit_and_7 : (i : ℕ) → i < 304 → bit_and i 7 ≡ i % 8
unfolding all_below
bit_and_7 i h = (==_iff _ _).0 (all_below_sound 304 (λ i. bit_and i 7 == i % 8) i refl h)

byte_pow : (q : ℕ) → 256 ^ q ≡ 2 ^ (8 * q)
byte_pow zero = ap (λ t. 2 ^ t) {x = 0} {y = 8 * zero} (omega arith)
byte_pow (suc q) =
    pow-suc 256 q
    ∙ omega (arith, ap (λ (t : ℕ). t * 256) (byte_pow q))
    ∙ sym (pow-add 2 8 (8 * q))
    ∙ ap (λ t. 2 ^ t) {x = 8 + 8 * q} {y = 8 * suc q} (omega arith)

-- Bit `i` of an encoded scalar is bit `i` of its value.
pub encoded_bit_lem :
    (bs : Bytes) (i : ℕ)
    → IsArray field_bytes bs
    → i < 304
    → encoded_bit bs i ≡ (le_value bs / 2 ^ i % 2 == 1)
unfolding encoded_bit
encoded_bit_lem bs i (n, h) k =
    ap (λ t. t == 1)
      (ap₂ (λ s t. s / 2 ^ t % 2) (get_or-value bs (i / 8) h) (bit_and_7 i k)
        ∙ low_bit (le_value bs / 256 ^ (i / 8)) (i % 8) (omega arith)
        ∙ ap (λ t. t % 2) (div-div-eq-div-mul (le_value bs) (256 ^ (i / 8)) (2 ^ (i % 8)))
        ∙ ap (λ t. le_value bs / t % 2)
            (ap (λ t. t * 2 ^ (i % 8)) (byte_pow (i / 8))
              ∙ sym (pow-add 2 (8 * (i / 8)) (i % 8))
              ∙ ap (λ t. 2 ^ t) {x = 8 * (i / 8) + i % 8} {y = i} (omega arith)))

module _ ⦃b : Bigint⦄ where
  -- The rounds see only the bits below their index.
  rounds_from_agree :
      (p : EdwardsPoint) (f g : ℕ → Bool) (n : ℕ) (q : EdwardsPoint)
      → ((i : ℕ) → i < n → f i ≡ g i)
      → rounds_from p f n q ≡ rounds_from p g n q
  unfolding rounds_from
  rounds_from_agree p f g zero q h = refl
  rounds_from_agree p f g (suc n) q h =
      ap (λ c. rounds_from p f n (conditional_select (double q) (add (double q) p) c))
        (h n (omega arith))
      ∙ rounds_from_agree p f g n _ (λ i k. h i (omega arith))

  -- The multiple of a point by a scalar of 38 encoded bytes is the multiple by its little-endian
  -- value.
  pub scalar_mul_encoded_lem :
      (p : EdwardsPoint) (bs : Bytes)
      → IsArray field_bytes bs
      → scalar_mul_encoded p bs ≡ scalar_mul p (le_value bs)
  unfolding scalar_mul_encoded scalar_mul scalar_mul_with
  scalar_mul_encoded_lem p bs h =
      rounds_from_agree p (λ i. encoded_bit bs i) (λ i. Scalar.bit (le_value bs) i) field_bits _
        (λ i k. encoded_bit_lem bs i h (omega arith) ∙ sym (bit_lem (le_value bs) i))

  -- Membership in the prime subgroup is that the multiple by L, which the encoded order stands
  -- for, is the identity.
  pub is_prime_subgroup_lem :
      (p : EdwardsPoint) → is_prime_subgroup p ≡ is_identity (scalar_mul p scalar_modulus)
  unfolding is_prime_subgroup
  is_prime_subgroup_lem p = ap is_identity (scalar_mul_encoded_lem p prime_order_bytes order_array)
    where
      order_array : IsArray field_bytes prime_order_bytes
      order_array = (refl, IsBytes_of prime_order_bytes refl)
