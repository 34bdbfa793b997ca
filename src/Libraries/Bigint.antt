-- ===== src/Libraries/Bigint.antt =====
-- crypto-bigint: the two Montgomery forms, and the operations of `U320`. A `U320` is the number
-- that it holds, so `from_u64`, the conversions of hexadecimal constants and `==` are the identity.
use ed301_eddsa.Base.{ℕ, ◌+◌, ◌/◌, ◌%◌, ◌^◌, ◌<◌, ◌≡◌, Bool, List, length, ltb, ◌==◌}
use ed301_eddsa.Base.Bytes.{Bytes, IsArray, le_value, le_bytes}
use ed301_eddsa.Base.Words.{IsWords, words_value, words}
use ed301_eddsa.Parameters.{field_modulus, scalar_modulus, u320_bytes}
use ed301_eddsa.Libraries.Montgomery.{MontyForm}

pub record Bigint : Type 1 where
  pub field_form : MontyForm field_modulus
  pub scalar_form : MontyForm scalar_modulus
  pub from_le_slice : Bytes → ℕ
  pub to_le_bytes : ℕ → Bytes
  pub from_words : List ℕ → ℕ
  pub to_words : ℕ → List ℕ
  pub ct_lt : ℕ → ℕ → Bool
  pub add_mod : ℕ → ℕ → ℕ → ℕ
  pub bit : ℕ → ℕ → Bool
  pub from_le_slice_lem : (bs : Bytes) → IsArray u320_bytes bs → from_le_slice bs ≡ le_value bs
  pub to_le_bytes_lem : (x : ℕ) → x < 2 ^ 320 → to_le_bytes x ≡ le_bytes u320_bytes x
  pub from_words_lem : (ws : List ℕ) → length ws ≡ 5 → IsWords ws → from_words ws ≡ words_value ws
  pub to_words_lem : (x : ℕ) → x < 2 ^ 320 → to_words x ≡ words 5 x
  pub ct_lt_lem : (a b : ℕ) → ct_lt a b ≡ ltb a b
  pub add_mod_lem : (a b m : ℕ) → a < m → b < m → m < 2 ^ 320 → add_mod a b m ≡ (a + b) % m
  pub bit_lem : (x i : ℕ) → bit x i ≡ (x / 2 ^ i % 2 == 1)
