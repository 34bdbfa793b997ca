-- ===== src/Numbers/Primes.antt =====
-- Primes: inverses modulo a prime, and Euclid's lemma.
use Prim.Native.Nat.{◌∣◌}
use native.Mathlib.Nat.{mul-div_cancel', mod-mod, mod-eq-zero_of_dvd, mod-eq_of_lt}
use ed301_eddsa.Base.{ℕ, ◌*◌, ◌/◌, ◌%◌, ◌<◌, arith, ◌==◌, ==_iff, Bool-cases, ◌⊎◌, inl, inr, ◌≢◌}
use ed301_eddsa.Base.{◌≡◌, sym, ap, ◌∙◌}
use ed301_eddsa.Libraries.Reference.Plain.{reduce}
use ed301_eddsa.Libraries.Reference.Inverse.{common_divisor}
use ed301_eddsa.Numbers.Powers.{mul-mod_left, mul-mod_right}

pub record IsPrime (q : ℕ) : Type 0 where
  pub above : 1 < q
  pub only : (x y : ℕ) → x * y ≡ q → (x ≡ 1) ⊎ (y ≡ 1)

-- A test of a remainder.
pub zero-cases : (x : ℕ) → (x ≡ 0) ⊎ (x ≢ 0)
zero-cases x = elim (Bool-cases (x == 0)) [
  | inl h ↦ inl ((==_iff x 0).0 h)
  | inr h ↦ inr λ e. cc (h, (==_iff x 0).1 e)
]

pub divides_prime : {q : ℕ} (g : ℕ) → IsPrime q → g ∣ q → (g ≡ 1) ⊎ (g ≡ q)
divides_prime {q} g prime h =
    let whole : g * (q / g) ≡ q = mul-div_cancel' g h in
    elim (prime.only g (q / g) whole) [
      | inl one ↦ inl one
      | inr one ↦ inr (omega (arith, whole, ap (λ (t : ℕ). g * t) one))
    ]

pub inverse_modulo : {q : ℕ} (x : ℕ) → IsPrime q → x % q ≢ 0 → (y : ℕ) × (x * y % q ≡ 1)
inverse_modulo {q} x prime h =
    let (g, t, bezout, left, right) =
      common_divisor q prime.above (reduce q (omega (arith, prime.above)) x) in
    elim (divides_prime g prime left) [
      | inl one ↦ (
        t.0,
        sym (mul-mod_left x t.0 q)
            ∙ sym (ap (λ r. r.0) bezout)
            ∙ ap (λ s. s % q) one
            ∙ mod-eq_of_lt prime.above,
      )
      | inr all ↦
          absurd
            (h (sym (mod-mod x q) ∙ ap (λ s. x % q % s) (sym all) ∙ mod-eq-zero_of_dvd _ right))
    ]

pub euclid_lem : {q : ℕ} (x y : ℕ) → IsPrime q → x * y % q ≡ 0 → (x % q ≡ 0) ⊎ (y % q ≡ 0)
euclid_lem {q} x y prime h = elim (zero-cases (x % q)) [
  | inl e ↦ inl e
  | inr e ↦ inr (
      let (z, one) = inverse_modulo x prime e in
      ap (λ t. t % q) {x = y} {y = 1 * y} (omega arith)
      ∙ sym (ap (λ t. t * y % q) one)
      ∙ mul-mod_left (x * z) y q
      ∙ ap (λ t. t % q) {x = x * z * y} {y = z * (x * y)} (omega arith)
      ∙ sym (mul-mod_right z (x * y) q)
      ∙ ap (λ t. z * t % q) h
      ∙ ap (λ t. t % q) {x = z * 0} {y = 0} (omega arith)
      ∙ mod-eq_of_lt (omega (arith, prime.above)))
]
