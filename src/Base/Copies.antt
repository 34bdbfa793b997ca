-- ===== src/Base/Copies.antt =====
-- `copy_from_slice` into a part of an array.
use Prim.Native.Nat.{ℕ, zero, suc, ◌+◌, ◌-◌}
use mathlib.Core.Path.{◌≡◌, refl, ap, ap₂, ◌∙◌}
use mathlib.Core.List.{[], ◌∷◌, ◌++◌}
use native.Mathlib.Omega.{arith}
use ed301_eddsa.Base.Lists.{length, take, drop, replicate}
use ed301_eddsa.Base.Bytes.{Bytes}

-- `output[offset..offset + src.len()].copy_from_slice(src)`.
unfoldable pub copy_into : ℕ → Bytes → Bytes → Bytes
copy_into offset src output = take offset output ++ (src ++ drop (offset + length src) output)

pub append-nil_eq : (xs : Bytes) → xs ++ [] ≡ xs
append-nil_eq [] = refl
append-nil_eq (x ∷ xs) = ap (◌∷◌ x) (append-nil_eq xs)

drop-replicate : (k n : ℕ) → drop {A = ℕ} k (replicate n 0) ≡ replicate (n - k) 0
drop-replicate zero n = ap (λ t. replicate {A = ℕ} t 0) {x = n} (omega arith)
drop-replicate (suc k) zero = ap (λ t. replicate {A = ℕ} t 0) {x = 0} (omega arith)
drop-replicate (suc k) (suc n) =
    drop-replicate k n ∙ ap (λ t. replicate {A = ℕ} t 0) {x = n - k} (omega arith)

-- Into the front of an array of zeros.
pub copy_into_zeros :
    (src : Bytes) (n : ℕ) → copy_into 0 src (replicate n 0) ≡ src ++ replicate (n - length src) 0
unfolding copy_into
copy_into_zeros src n =
    ap (λ t. src ++ drop t (replicate n 0)) {x = 0 + length src} {y = length src} (omega arith)
    ∙ ap (◌++◌ src) (drop-replicate (length src) n)

-- Over the whole of an array of zeros.
pub copy_into_all : (src : Bytes) (n : ℕ) → length src ≡ n → copy_into 0 src (replicate n 0) ≡ src
copy_into_all src n h =
    copy_into_zeros src n
    ∙ ap (λ t. src ++ replicate t 0) {x = n - length src} {y = 0} (omega arith)
    ∙ append-nil_eq src

take_exact : (xs ys : Bytes) (n : ℕ) → length xs ≡ n → take n (xs ++ ys) ≡ xs
take_exact [] ys zero h = refl
take_exact [] ys (suc n) h = absurd (omega arith)
take_exact (x ∷ xs) ys zero h = absurd (omega arith)
take_exact (x ∷ xs) ys (suc n) h = ap (◌∷◌ x) (take_exact xs ys n (omega arith))

drop_beyond : (xs ys : Bytes) (n : ℕ) → length xs + length ys ≡ n → drop n (xs ++ ys) ≡ []
drop_beyond [] [] zero h = refl
drop_beyond [] [] (suc n) h = absurd (omega arith)
drop_beyond [] (y ∷ ys) zero h = absurd (omega arith)
drop_beyond [] (y ∷ ys) (suc n) h = drop_beyond [] ys n (omega arith)
drop_beyond (x ∷ xs) ys zero h = absurd (omega arith)
drop_beyond (x ∷ xs) ys (suc n) h = drop_beyond xs ys n (omega arith)

drop_past : (xs ys : Bytes) (n k : ℕ) → length xs + k ≡ n → drop n (xs ++ ys) ≡ drop k ys
drop_past [] ys n k h = ap (λ t. drop t ys) {x = n} {y = k} (omega arith)
drop_past (x ∷ xs) ys zero k h = absurd (omega arith)
drop_past (x ∷ xs) ys (suc n) k h = drop_past xs ys n k (omega arith)

-- Behind what is written already.
pub copy_into_next :
    (xs ys src : Bytes) (n : ℕ)
    → length xs ≡ n
    → copy_into n src (xs ++ ys) ≡ xs ++ (src ++ drop (length src) ys)
unfolding copy_into
copy_into_next xs ys src n h =
    ap₂ (λ s t. s ++ (src ++ t)) (take_exact xs ys n h)
      (drop_past xs ys (n + length src) (length src) (omega arith))

-- Over the end of an array.
pub copy_into_end :
    (xs ys src : Bytes) (n : ℕ)
    → length xs ≡ n
    → length src ≡ length ys
    → copy_into n src (xs ++ ys) ≡ xs ++ src
unfolding copy_into
copy_into_end xs ys src n h k =
    ap (λ t. take n (xs ++ ys) ++ (src ++ t)) (drop_beyond xs ys (n + length src) (omega arith))
    ∙ ap (λ t. t ++ (src ++ [])) (take_exact xs ys n h)
    ∙ ap (◌++◌ xs) (append-nil_eq src)
