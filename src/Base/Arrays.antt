-- ===== src/Base/Arrays.antt =====
-- Writes to single bytes of an array.
use Prim.Native.Nat.{ℕ, zero, suc, ◌+◌, ◌*◌, ◌^◌, ◌<◌}
use mathlib.Core.Path.{◌≡◌, refl, ap}
use mathlib.Core.List.{[], ◌∷◌}
use native.Mathlib.Nat.{pow-suc}
use native.Mathlib.Omega.{arith}
use ed301_eddsa.Base.Lists.{length, take, get_or, set}
use ed301_eddsa.Base.Bytes.{Bytes, IsBytes, le_value}

-- The bytes of an array after a write, read back and restored.
pub get_or-set : (bs : Bytes) (i v : ℕ) → i < length bs → get_or (set bs i v) i 0 ≡ v
get_or-set [] i v h = absurd (omega arith)
get_or-set (b ∷ bs) zero v h = refl
get_or-set (b ∷ bs) (suc i) v h = get_or-set bs i v (omega arith)

pub set-set_self : (bs : Bytes) (i v : ℕ) → set (set bs i v) i (get_or bs i 0) ≡ bs
set-set_self [] i v = refl
set-set_self (b ∷ bs) zero v = refl
set-set_self (b ∷ bs) (suc i) v = ap (◌∷◌ b) (set-set_self bs i v)

pub set-IsBytes : (bs : Bytes) (i v : ℕ) → v < 256 → IsBytes bs → IsBytes (set bs i v)
set-IsBytes [] i v h k = tt
set-IsBytes (b ∷ bs) zero v h k = (h, k.1)
set-IsBytes (b ∷ bs) (suc i) v h k = (k.0, set-IsBytes bs i v h k.1)

pub get_or-lt : (bs : Bytes) (i : ℕ) → IsBytes bs → get_or bs i 0 < 256
get_or-lt [] i h = omega arith
get_or-lt (b ∷ bs) zero h = h.0
get_or-lt (b ∷ bs) (suc i) h = get_or-lt bs i h.1

-- The value of a string, split at its last byte.
pub value-last :
    (n : ℕ) (bs : Bytes)
    → length bs ≡ suc n
    → le_value bs ≡ le_value (take n bs) + 256 ^ n * get_or bs n 0
value-last zero [] h = absurd (omega arith)
value-last zero (b ∷ []) h = omega arith
value-last zero (b ∷ (c ∷ bs)) h = absurd (omega arith)
value-last (suc n) [] h = absurd (omega arith)
value-last (suc n) (b ∷ bs) h =
    omega (arith, value-last n bs (omega arith), ap (λ (t : ℕ). t * get_or bs n 0) (pow-suc 256 n))

pub take-set : (n : ℕ) (bs : Bytes) (v : ℕ) → take n (set bs n v) ≡ take n bs
take-set zero bs v = refl
take-set (suc n) [] v = refl
take-set (suc n) (b ∷ bs) v = ap (◌∷◌ b) (take-set n bs v)
