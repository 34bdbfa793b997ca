-- ===== src/Harness/Inputs.antt =====
-- secret-taint/src/main.rs: `required_array` and `hex_nibble`.
use ed301_eddsa.Base.{ℕ, zero, suc, ◌+◌, ◌-◌, ◌*◌, ◌^◌, ◌==◌, ltb, not, ◌&&◌, if◌then◌else◌}
use ed301_eddsa.Base.{Option, ◌++◌, length, get_or, set, replicate, bit_or}
use ed301_eddsa.Base.Bytes.{Bytes}
use ed301_eddsa.Base.Results.{Result, ok, err, ◌>>=◌, ok_or, fail_if}
use ed301_eddsa.Base.Text.{codes}

-- The ranges are `b'0'..=b'9'`, `b'a'..=b'f'` and `b'A'..=b'F'`.
unfoldable pub hex_nibble : ℕ → Result Bytes ℕ
hex_nibble value =
    if not (ltb value 48) && not (ltb 57 value)
    then ok (value - 48)
    else if not (ltb value 97) && not (ltb 102 value)
    then ok (value - 97 + 10)
    else if not (ltb value 65) && not (ltb 70 value)
    then ok (value - 65 + 10)
    else err (codes "invalid hexadecimal input")

-- The loop of `required_array` for `left` indices from `index` on.
unfoldable pub read_pairs : ℕ → ℕ → Bytes → Bytes → Result Bytes Bytes
read_pairs zero index value output = ok output
read_pairs (suc left) index value output = hex_nibble (get_or value (index * 2) 0) >>= λ high.
    hex_nibble (get_or value (index * 2 + 1) 0) >>= λ low.
    read_pairs left (index + 1) value (set output index (bit_or (high * 2 ^ 4) low))

-- `env` is the environment of the process.
unfoldable pub required_array : ℕ → (Bytes → Option Bytes) → Bytes → Result Bytes Bytes
required_array n env name = ok_or (env name) (codes "missing " ++ name) >>= λ value.
    fail_if (not (length value == n * 2)) (name ++ codes " has the wrong hexadecimal length")
      (read_pairs n 0 value (replicate n 0))
