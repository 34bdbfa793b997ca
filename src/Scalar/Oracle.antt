-- ===== src/Scalar/Oracle.antt =====
-- scalar.rs: the wide division that the unit tests compare `reduce_hash_le` with.
use ed301_eddsa.Base.{
  ℕ, zero, suc, ◌+◌, ◌-◌, ◌*◌, ◌/◌, ◌%◌, ◌^◌, ◌<◌, ◌==◌, ==_iff, arith, ◌≡◌, refl, sym, ap, ap₂,
  ◌∙◌, Bool, true, ◌&&◌, [], ◌∷◌,
}
use ed301_eddsa.Base.{
  ◌++◌, length, take, drop, replicate, set, length-take, length-drop, length-set, length-append,
  take-append-drop,
}
use ed301_eddsa.Base.Bytes.{
  Bytes, IsArray, IsBytes, le_value, le_value-lt, le_value-append, le_value-replicate_zero,
  replicate-IsBytes, IsBytes-take, IsBytes-drop,
}
use ed301_eddsa.Base.Arrays.{set-IsBytes}
use ed301_eddsa.Base.Copies.{copy_into, copy_into_all, copy_into_zeros}
use ed301_eddsa.Parameters.{hash_bytes, u320_bytes, scalar_modulus}
use ed301_eddsa.Libraries.Bigint.{Bigint}
use ed301_eddsa.Scalar.{reduce_hash_le}
use ed301_eddsa.Scalar.Reduce.{reduce_hash_le_lem}

-- `U320::rem_wide` divides the number that its two halves make, the low one first.
module _ ⦃b : Bigint⦄ (rem_wide : ℕ × ℕ → ℕ → ℕ) where
  unfoldable pub division_oracle : Bytes → ℕ
  division_oracle bytes =
      let low = copy_into 0 (take u320_bytes bytes) (replicate u320_bytes 0) in
      let high = copy_into 0 (drop u320_bytes bytes) (replicate u320_bytes 0) in
      rem_wide (b.from_le_slice low, b.from_le_slice high) scalar_modulus

  unfoldable pub assert_reduction : Bytes → Bool
  assert_reduction bytes = reduce_hash_le bytes == division_oracle bytes

  -- The test `every_one_of_the_608_input_bits_matches_wide_division` for `left` bits from `bit` on.
  unfoldable pub every_bit_matches : ℕ → ℕ → Bool
  every_bit_matches zero bit = true
  every_bit_matches (suc left) bit =
      assert_reduction (set (replicate hash_bytes 0) (bit / 8) (2 ^ (bit % 8)))
      && every_bit_matches left (bit + 1)

-- The halves that the oracle reads.
module _ (bytes : Bytes) (h : IsArray hash_bytes bytes) where
  low_half : copy_into 0 (take u320_bytes bytes) (replicate u320_bytes 0) ≡ take u320_bytes bytes
  low_half = copy_into_all _ u320_bytes (omega (arith, length-take u320_bytes bytes, h.0))

  high_half :
      copy_into 0 (drop u320_bytes bytes) (replicate u320_bytes 0)
      ≡ drop u320_bytes bytes ++ replicate 4 0
  high_half =
      copy_into_zeros (drop u320_bytes bytes) u320_bytes
      ∙ ap (λ t. drop u320_bytes bytes ++ replicate t 0)
          {x = u320_bytes - length (drop u320_bytes bytes)} {y = 4}
          (omega (arith, length-drop u320_bytes bytes, h.0))

  whole_value :
      le_value bytes ≡ le_value (take u320_bytes bytes) + 2 ^ 320 * le_value (drop u320_bytes bytes)
  whole_value =
      ap le_value (sym (take-append-drop u320_bytes bytes))
      ∙ le_value-append (take u320_bytes bytes) (drop u320_bytes bytes)
      ∙ ap (λ t. le_value (take u320_bytes bytes) + 256 ^ t * le_value (drop u320_bytes bytes))
          {x = length (take u320_bytes bytes)} {y = u320_bytes}
          (omega (arith, length-take u320_bytes bytes, h.0))

IsBytes-append : (xs ys : Bytes) → IsBytes xs → IsBytes ys → IsBytes (xs ++ ys)
IsBytes-append [] ys h k = k
IsBytes-append (x ∷ xs) ys h k = (h.0, IsBytes-append xs ys h.1 k)

value_below : (bytes : Bytes) → IsArray u320_bytes bytes → le_value bytes < 2 ^ 320
value_below bytes (n, h) =
    omega (arith, le_value-lt bytes h, ap (λ t. 256 ^ t) {x = length bytes} {y = 40} n)

-- The documented behaviour of `U320::rem_wide`.
abbrev pub Divides : (ℕ × ℕ → ℕ → ℕ) → Type 0
Divides rem_wide =
    (low high m : ℕ)
    → low < 2 ^ 320
    → high < 2 ^ 320
    → 0 < m
    → rem_wide (low, high) m ≡ (low + 2 ^ 320 * high) % m

single_bit-lt : (n : ℕ) → n < 8 → 2 ^ n < 256
single_bit-lt zero h = omega arith
single_bit-lt (suc zero) h = omega arith
single_bit-lt (suc (suc zero)) h = omega arith
single_bit-lt (suc (suc (suc zero))) h = omega arith
single_bit-lt (suc (suc (suc (suc zero)))) h = omega arith
single_bit-lt (suc (suc (suc (suc (suc zero))))) h = omega arith
single_bit-lt (suc (suc (suc (suc (suc (suc zero)))))) h = omega arith
single_bit-lt (suc (suc (suc (suc (suc (suc (suc zero))))))) h = omega arith
single_bit-lt (suc (suc (suc (suc (suc (suc (suc (suc n)))))))) h = absurd (omega arith)

module _ ⦃b : Bigint⦄ where
  -- On 76 bytes the ten-word schedule gives what the wide division of the tests gives, where
  -- rem_wide divides the number that its two halves make.
  pub reduce_hash_le-division_oracle :
      (rem_wide : ℕ × ℕ → ℕ → ℕ)
      → Divides rem_wide
      → (bytes : Bytes) → IsArray hash_bytes bytes
      → reduce_hash_le bytes ≡ division_oracle rem_wide bytes
  unfolding division_oracle
  reduce_hash_le-division_oracle rem_wide divides bytes h =
      reduce_hash_le_lem bytes h
      ∙ ap (λ t. t % scalar_modulus) (whole_value bytes h)
      ∙ sym (
          ap₂ (λ l r. rem_wide (l, r) scalar_modulus) low high
          ∙ divides _ _ scalar_modulus (value_below _ first)
              (omega (arith, sym high_value, value_below _ second)) (omega arith))
    where
      first : IsArray u320_bytes (take u320_bytes bytes)
      first = (omega (arith, length-take u320_bytes bytes, h.0), IsBytes-take u320_bytes bytes h.1)

      second : IsArray u320_bytes (drop u320_bytes bytes ++ replicate 4 0)
      second = (
        omega (
          arith,
          length-append (drop u320_bytes bytes) (replicate 4 0),
          length-drop u320_bytes bytes,
          h.0,
        ),
        IsBytes-append _ (replicate 4 0) (IsBytes-drop u320_bytes bytes h.1) (replicate-IsBytes 4),
      )

      high_value :
          le_value (drop u320_bytes bytes ++ replicate 4 0) ≡ le_value (drop u320_bytes bytes)
      high_value = omega (
        arith,
        le_value-append (drop u320_bytes bytes) (replicate 4 0),
        ap (λ (t : ℕ). 256 ^ length (drop u320_bytes bytes) * t) (le_value-replicate_zero 4),
      )

      low :
          b.from_le_slice (copy_into 0 (take u320_bytes bytes) (replicate u320_bytes 0))
          ≡ le_value (take u320_bytes bytes)
      low = ap b.from_le_slice (low_half bytes h) ∙ b.from_le_slice_lem _ first

      high :
          b.from_le_slice (copy_into 0 (drop u320_bytes bytes) (replicate u320_bytes 0))
          ≡ le_value (drop u320_bytes bytes)
      high = ap b.from_le_slice (high_half bytes h) ∙ b.from_le_slice_lem _ second ∙ high_value

  -- The test of the 608 input bits passes.
  every_bit_matches_lem :
      (rem_wide : ℕ × ℕ → ℕ → ℕ)
      → Divides rem_wide
      → (left bit : ℕ) → every_bit_matches rem_wide left bit ≡ true
  unfolding every_bit_matches assert_reduction
  every_bit_matches_lem rem_wide divides zero bit = refl
  every_bit_matches_lem rem_wide divides (suc left) bit =
      ap₂ ◌&&◌
        ((==_iff _ _).1 (
          reduce_hash_le-division_oracle rem_wide divides _ (
            length-set (replicate hash_bytes 0) (bit / 8) _,
            set-IsBytes (replicate hash_bytes 0) (bit / 8) _ (single_bit-lt (bit % 8) (omega arith))
                (replicate-IsBytes hash_bytes),
          )))
        (every_bit_matches_lem rem_wide divides left (bit + 1))
