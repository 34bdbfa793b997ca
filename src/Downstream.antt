-- ===== src/Downstream.antt =====
-- integration/downstream-workspace/src/main.rs: a program that checks the crate on a recorded vector.
-- A panic is `none`.
pub mod Hex
use ed301_eddsa.Base.{
  ℕ, zero, suc, ◌+◌, ◌-◌, ◌*◌, ◌^◌, ◌==◌, ltb, Bool, true, false, not, ◌&&◌, if◌then◌else◌,
}
use ed301_eddsa.Base.{
  Option, none, some, ◌>>=◌, List, [], ◌∷◌, length, get_or, set, replicate, bit_or,
}
use ed301_eddsa.Base.Bytes.{Bytes}
use ed301_eddsa.Base.Results.{Result, ok, err}
use ed301_eddsa.Base.Text.{same_bytes}
use ed301_eddsa.Libraries.Bigint.{Bigint}
use ed301_eddsa.Libraries.Xof.{Xof}
use ed301_eddsa.Signature.Wire
use ed301_eddsa.Signature.VerifyingKey
use ed301_eddsa.Signature.Signing
use ed301_eddsa.Signature.OneShot

-- `assert!(condition)` and `assert_eq!(left, right)` before the rest.
abbrev pub assert {ℓ} : {A : Type ℓ} → Bool → Option A → Option A
assert true rest = rest
assert false rest = none

abbrev expect {ℓ} : {E : Type 0} {A : Type ℓ} → Result E A → Option A
expect (ok a) = some a
expect (err e) = none

-- The ranges are `b'0'..=b'9'` and `b'a'..=b'f'`.
unfoldable pub nibble : ℕ → Option ℕ
nibble value =
    if not (ltb value 48) && not (ltb 57 value)
    then some (value - 48)
    else if not (ltb value 97) && not (ltb 102 value)
    then some (value - 97 + 10)
    else none

-- The loop of `hex_array` for `left` indices from `index` on.
unfoldable pub fill : ℕ → ℕ → Bytes → Bytes → Option Bytes
fill zero index hex output = some output
fill (suc left) index hex output = nibble (get_or hex (index * 2) 0) >>= λ high.
    nibble (get_or hex (index * 2 + 1) 0) >>= λ low.
    fill left (index + 1) hex (set output index (bit_or (high * 2 ^ 4) low))

unfoldable pub hex_array : ℕ → Bytes → Option Bytes
hex_array n hex = assert (length hex == n * 2) (fill n 0 hex (replicate n 0))

module _ ⦃b : Bigint⦄ ⦃xof : Xof⦄ where
  -- The seed and the two expected results are in hexadecimal.
  unfoldable pub run_known_answer_check : Bytes → Bytes → Bytes → Option (Unit {0})
  run_known_answer_check seed_hex public_key_hex signature_hex = hex_array 38 seed_hex >>= λ seed.
      hex_array 38 public_key_hex >>= λ expected_public_key.
      hex_array 76 signature_hex >>= λ expected_signature.
      expect (Signing.from_seed seed) >>= λ key.
      expect (Signing.verifying_key key) >>= λ verifying_key.
      let public_key = VerifyingKey.to_bytes verifying_key in
      expect (Signing.sign key []) >>= λ parsed.
      let signature = Wire.to_bytes parsed in
      assert (same_bytes public_key expected_public_key) (
        assert (same_bytes signature expected_signature)
          (assert (OneShot.verify public_key [] signature) (some tt)))
