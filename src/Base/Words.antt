-- ===== src/Base/Words.antt =====
-- Little-endian lists of 64-bit words.
use mathlib.Core.List.{List, [], ◌∷◌}
use Prim.Native.Nat.{ℕ, zero, suc, ◌+◌, ◌*◌, ◌/◌, ◌%◌, ◌^◌, ◌<◌}

abbrev pub IsWords : List ℕ → Type 0
IsWords [] = Unit {0}
IsWords (w ∷ ws) = (w < 2 ^ 64) × IsWords ws

abbrev pub words_value : List ℕ → ℕ
words_value [] = 0
words_value (w ∷ ws) = w + 2 ^ 64 * words_value ws

unfoldable pub words : ℕ → ℕ → List ℕ
words zero x = []
words (suc n) x = x % 2 ^ 64 ∷ words n (x / 2 ^ 64)
