-- ===== src/Scalar.antt =====
-- crates/ed301-eddsa/src/scalar.rs: scalars modulo L. A `Scalar` is the `U320` that it wraps.
pub mod Words
pub mod Reduce
pub mod Codec
pub mod Arith
pub mod Oracle
use ed301_eddsa.Base.{
  ℕ, zero, suc, ◌+◌, ◌-◌, ◌*◌, ◌<◌, ltb, if◌then◌else◌, Bool, Option, List, [], ◌∷◌,
}
use ed301_eddsa.Base.{length, take, drop, replicate, get_or, set, ct_option}
use ed301_eddsa.Base.Bytes.{Bytes, le_value, le_bytes}
use ed301_eddsa.Base.Copies.{copy_into}
use ed301_eddsa.Parameters.{scalar_bytes, u320_bytes, scalar_modulus}
use ed301_eddsa.Secret.{Secret, secret}
use ed301_eddsa.Libraries.Bigint.{Bigint}

abbrev pub Scalar : Type 0
Scalar = ℕ

abbrev pub zero_scalar : Scalar
zero_scalar = 0

abbrev pub one_scalar : Scalar
one_scalar = 1

-- `encoded.copy_from_slice(&bytes[offset..offset + 8]); words[index] = u64::from_le_bytes(encoded)`
-- for `left` indices from `index` on.
unfoldable pub read_words : ℕ → ℕ → Bytes → List ℕ → List ℕ
read_words zero index bytes words = words
read_words (suc left) index bytes words =
    let offset = index * 8 in
    let encoded = secret (copy_into 0 (take 8 (drop offset bytes)) (replicate 8 0)) in
    read_words left (index + 1) bytes (set words index (le_value encoded))

-- The array that `reduce_pruned_le` fills.
unfoldable pub pruned_words : Bytes → List ℕ
pruned_words bytes =
    let words = read_words 4 0 bytes (replicate 5 0) in
    let high = secret (copy_into 0 (take 6 (drop 32 bytes)) (replicate 8 0)) in
    set words 4 (le_value high)

-- The array that `reduce_hash_le` fills.
unfoldable pub hash_words : Bytes → List ℕ
hash_words bytes =
    let words = read_words 9 0 bytes (replicate 10 0) in
    let high = secret (copy_into 0 (take 4 (drop 72 bytes)) (replicate 8 0)) in
    set words 9 (le_value high)

-- The loop of `write_canonical_bytes`, with fuel; it takes five rounds.
unfoldable pub write_words : ℕ → List ℕ → ℕ → ℕ → Bytes → Bytes
write_words zero words word_index offset output = output
write_words (suc fuel) words word_index offset output =
    let encoded = secret (le_bytes 8 (get_or words word_index 0)) in
    let remaining = scalar_bytes - offset in
    let taken = if ltb remaining (length encoded) then remaining else length encoded in
    let rest =
      write_words fuel words (word_index + 1) (offset + taken)
        (copy_into offset (take taken encoded) output) in
    if ltb offset scalar_bytes then rest else output

module _ ⦃b : Bigint⦄ where
  unfoldable pub uint_from_le38 : Bytes → ℕ
  uint_from_le38 bytes =
      let widened = copy_into 0 bytes (replicate u320_bytes 0) in b.from_le_slice widened

  unfoldable pub from_canonical_bytes : Bytes → Option Scalar
  from_canonical_bytes bytes =
      let integer = uint_from_le38 bytes in ct_option integer (b.ct_lt integer scalar_modulus)

  abbrev pub MontgomeryScalar : Type 0
  MontgomeryScalar = b.scalar_form.Elem

  unfoldable pub radix_64 : MontgomeryScalar
  radix_64 = b.scalar_form.new (b.from_words (0 ∷ 1 ∷ 0 ∷ 0 ∷ 0 ∷ []))

  -- The rounds of `reduce_words` that are left at `index`.
  unfoldable pub reduce_from : List ℕ → ℕ → MontgomeryScalar → MontgomeryScalar
  reduce_from words zero accumulator = accumulator
  reduce_from words (suc index) accumulator =
      let word = secret (get_or words index 0) in
      let addend = secret (b.scalar_form.new word) in
      let product = secret (b.scalar_form.mul accumulator radix_64) in
      reduce_from words index (secret (b.scalar_form.add product addend))

  unfoldable pub reduce_words : List ℕ → Secret Scalar
  reduce_words words =
      secret (b.scalar_form.retrieve (reduce_from words (length words) b.scalar_form.zero_elem))

  unfoldable pub reduce_pruned_le : Bytes → Secret Scalar
  reduce_pruned_le bytes = reduce_words (pruned_words bytes)

  unfoldable pub reduce_hash_le : Bytes → Secret Scalar
  reduce_hash_le bytes = reduce_words (hash_words bytes)

  -- The output after the call.
  unfoldable pub write_canonical_bytes : Scalar → Bytes → Bytes
  write_canonical_bytes self output = write_words 5 (secret (b.to_words self)) 0 0 output

  unfoldable pub canonical_bytes : Scalar → Bytes
  canonical_bytes self = write_canonical_bytes self (replicate scalar_bytes 0)

  unfoldable pub add : Scalar → Scalar → Secret Scalar
  add self rhs = secret (b.add_mod self rhs scalar_modulus)

  unfoldable pub mul : Scalar → Scalar → Secret Scalar
  mul self rhs =
      let left = secret (b.scalar_form.new self) in
      let right = secret (b.scalar_form.new rhs) in
      let product = secret (b.scalar_form.mul left right) in secret (b.scalar_form.retrieve product)

  unfoldable pub bit : Scalar → ℕ → Bool
  bit self index = b.bit self index
