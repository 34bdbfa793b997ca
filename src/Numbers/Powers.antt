-- ===== src/Numbers/Powers.antt =====
-- Powers by repeated multiplication, and modulo a number by repeated squaring. The exponents here are
-- too large for the native power, which would compute them.
use native.Mathlib.Nat.{div-add-mod, mul-add-mod_self_right, mod-mod}
use native.Mathlib.Nat.{pow-zero as two_pow-zero, pow-suc as two_pow-suc}
use ed301_eddsa.Base.{
  ℕ, zero, suc, ◌+◌, ◌*◌, ◌/◌, ◌%◌, ◌^◌, ◌<◌, arith, ◌==◌, ==_iff, if◌then◌else◌, Bool-cases, inl,
  inr,
}
use ed301_eddsa.Base.{◌≡◌, refl, sym, ap, ap₂, ◌∙◌}

pub mul-mod : (a b m : ℕ) → (a % m) * (b % m) % m ≡ a * b % m
mul-mod a b m =
    sym (mul-add-mod_self_right (a / m * b + (a % m) * (b / m)) m ((a % m) * (b % m)))
    ∙ ap (λ t. t % m)
        (omega (
          arith,
          ap (λ (t : ℕ). t * b) (div-add-mod a m),
          ap (λ (t : ℕ). (a % m) * t) (div-add-mod b m),
        ))

unfoldable pub pow : ℕ → ℕ → ℕ
pow x zero = 1
pow x (suc n) = pow x n * x

pub pow-zero : (x : ℕ) → pow x 0 ≡ 1
unfolding pow
pow-zero x = refl

pub pow-suc : (x n : ℕ) → pow x (suc n) ≡ pow x n * x
unfolding pow
pow-suc x n = refl

pub pow-add : (x n k : ℕ) → pow x (n + k) ≡ pow x n * pow x k
pow-add x zero k =
    ap (pow x) {x = zero + k} {y = k} (omega arith)
    ∙ omega (arith, ap (λ (t : ℕ). t * pow x k) (pow-zero x))
pow-add x (suc n) k =
    ap (pow x) {x = suc n + k} {y = suc (n + k)} (omega arith)
    ∙ pow-suc x (n + k)
    ∙ omega
        (arith, ap (λ (t : ℕ). t * x) (pow-add x n k), ap (λ (t : ℕ). t * pow x k) (pow-suc x n))

pub pow-mul_base : (x y n : ℕ) → pow (x * y) n ≡ pow x n * pow y n
pow-mul_base x y zero =
    omega (arith, pow-zero (x * y), pow-zero y, ap (λ (t : ℕ). t * pow y zero) (pow-zero x))
pow-mul_base x y (suc n) =
    pow-suc (x * y) n
    ∙ omega (
      arith,
      ap (λ (t : ℕ). t * (x * y)) (pow-mul_base x y n),
      ap₂ (λ (s t : ℕ). s * t) (pow-suc x n) (pow-suc y n),
    )

pub pow-mul : (x n k : ℕ) → pow x (n * k) ≡ pow (pow x n) k
pow-mul x n zero =
    ap (pow x) {x = n * zero} {y = 0} (omega arith) ∙ pow-zero x ∙ sym (pow-zero (pow x n))
pow-mul x n (suc k) =
    ap (pow x) {x = n * suc k} {y = n * k + n} (omega arith)
    ∙ pow-add x (n * k) n
    ∙ ap (λ t. t * pow x n) (pow-mul x n k)
    ∙ sym (pow-suc (pow x n) k)

pub pow-one : (n : ℕ) → pow 1 n ≡ 1
pow-one zero = pow-zero 1
pow-one (suc n) = pow-suc 1 n ∙ omega (arith, pow-one n)

-- A factor may be reduced first.
pub mul-mod_left : (a b m : ℕ) → (a % m) * b % m ≡ a * b % m
mul-mod_left a b m =
    sym (mul-mod (a % m) b m) ∙ ap (λ t. t * (b % m) % m) (mod-mod a m) ∙ mul-mod a b m

pub mul-mod_right : (a b m : ℕ) → a * (b % m) % m ≡ a * b % m
mul-mod_right a b m =
    ap (λ t. t % m) {x = a * (b % m)} {y = (b % m) * a} (omega arith)
    ∙ mul-mod_left b a m
    ∙ ap (λ t. t % m) {x = b * a} {y = a * b} (omega arith)

pub pow-mod : (x n m : ℕ) → pow (x % m) n % m ≡ pow x n % m
pow-mod x zero m = ap (λ t. t % m) (pow-zero (x % m) ∙ sym (pow-zero x))
pow-mod x (suc n) m =
    ap (λ t. t % m) (pow-suc (x % m) n)
    ∙ mul-mod_right (pow (x % m) n) x m
    ∙ sym (mul-mod_left (pow (x % m) n) x m)
    ∙ ap (λ t. t * x % m) (pow-mod x n m)
    ∙ mul-mod_left (pow x n) x m
    ∙ ap (λ t. t % m) (sym (pow-suc x n))

-- Square and multiply over the `k` low bits of the exponent.
abbrev pub power : ℕ → ℕ → ℕ → ℕ → ℕ
power m zero x e = 1 % m
power m (suc k) x e =
    let rest = power m k (x * x % m) (e / 2) in if e % 2 == 1 then rest * x % m else rest

half_of : (x h : ℕ) → pow (x * x) h ≡ pow x (h + h)
half_of x h = pow-mul_base x x h ∙ sym (pow-add x h h)

pub power_lem : (m k x e : ℕ) → e < 2 ^ k → power m k x e ≡ pow x e % m
power_lem m zero x e h =
    ap (λ t. t % m) (sym (pow-zero x) ∙ ap (pow x) {x = 0} {y = e} (omega (arith, two_pow-zero 2)))
power_lem m (suc k) x e h =
    let rest =
      power_lem m k (x * x % m) (e / 2) (omega (arith, two_pow-suc 2 k))
      ∙ pow-mod (x * x) (e / 2) m
      ∙ ap (λ t. t % m) (half_of x (e / 2)) in
    elim (Bool-cases (e % 2 == 1)) [
      | inl odd ↦ rw odd (
          ap (λ t. t * x % m) rest
          ∙ mul-mod_left (pow x (e / 2 + e / 2)) x m
          ∙ ap (λ t. t % m) (sym (pow-suc x (e / 2 + e / 2)))
          ∙ ap (λ t. pow x t % m) {x = suc (e / 2 + e / 2)} {y = e}
              (omega (arith, (==_iff (e % 2) 1).0 odd)))
      | inr even ↦ rw even (rest ∙ ap (λ t. pow x t % m) {x = e / 2 + e / 2} {y = e} (ground arith))
    ]
