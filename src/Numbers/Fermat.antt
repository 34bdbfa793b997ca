-- ===== src/Numbers/Fermat.antt =====
-- Fermat's theorem.
use native.Mathlib.Nat.{mod-eq_of_lt, mul-mod_right, add-mod}
use ed301_eddsa.Base.{
  ℕ, zero, suc, ◌+◌, ◌-◌, ◌*◌, ◌%◌, ◌<◌, arith, ◌≡◌, ◌≢◌, sym, ap, ap₂, ◌∙◌, inl, inr,
}
use ed301_eddsa.Numbers.Powers.{
  pow, pow-suc, pow-add, pow-mod, pow-mul_base, mul-mod, mul-mod_left,
  mul-mod_right as reduce_right,
}
use ed301_eddsa.Numbers.Primes.{IsPrime, zero-cases, euclid_lem, inverse_modulo}
use ed301_eddsa.Numbers.Binomials.{
  choose, choose_self, absorb, expansion, expansion-suc, expansion-one, binomial,
}

-- A prime divides the inner binomial coefficients of its row.
choose-prime : (n k : ℕ) → IsPrime (suc n) → k < n → choose (suc n) (suc k) % suc n ≡ 0
choose-prime n k prime h = elim (euclid_lem (suc k) (choose (suc n) (suc k)) prime product) [
  | inl e ↦ absurd (omega (arith, sym e ∙ mod-eq_of_lt below))
  | inr e ↦ e
]
  where
    below : suc k < suc n
    below = omega arith

    product : suc k * choose (suc n) (suc k) % suc n ≡ 0
    product = ap (λ t. t % suc n) (absorb n k) ∙ mul-mod_right (suc n) (choose n k)

-- So the expansion of a power by the prime is one before its last term.
expansion-prime :
    (n x j : ℕ) → IsPrime (suc n) → j < suc n → expansion (suc n) x (suc j) % suc n ≡ 1
expansion-prime n x zero prime h =
    ap (λ t. t % suc n) (expansion-one (suc n) x) ∙ mod-eq_of_lt prime.above
expansion-prime n x (suc j) prime h =
    ap (λ t. t % suc n) (expansion-suc (suc n) x (suc j))
    ∙ add-mod (expansion (suc n) x (suc j)) (choose (suc n) (suc j) * pow x (suc j)) (suc n)
    ∙ ap₂ (λ s t. (s + t) % suc n) (expansion-prime n x j prime (omega arith))
        (sym (mul-mod_left (choose (suc n) (suc j)) (pow x (suc j)) (suc n))
          ∙ ap (λ t. t * pow x (suc j) % suc n) (choose-prime n j prime (omega arith))
          ∙ ap (λ t. t % suc n) {x = 0 * pow x (suc j)} {y = 0} (omega arith)
          ∙ mod-eq_of_lt (omega arith))
    ∙ mod-eq_of_lt (omega (arith, prime.above))

dream : (n x : ℕ) → IsPrime (suc n) → pow (suc x) (suc n) % suc n ≡ (1 + pow x (suc n)) % suc n
dream n x prime =
    ap (λ t. t % suc n)
      (sym (binomial (suc n) x)
        ∙ expansion-suc (suc n) x (suc n)
        ∙ ap (λ t. expansion (suc n) x (suc n) + t * pow x (suc n)) (choose_self (suc n))
        ∙ ap (λ t. expansion (suc n) x (suc n) + t) {x = 1 * pow x (suc n)} {y = pow x (suc n)}
            (omega arith))
    ∙ add-mod (expansion (suc n) x (suc n)) (pow x (suc n)) (suc n)
    ∙ ap (λ t. (t + pow x (suc n) % suc n) % suc n)
        (expansion-prime n x n prime (omega arith) ∙ sym (mod-eq_of_lt prime.above))
    ∙ sym (add-mod 1 (pow x (suc n)) (suc n))

pub fermat : (n x : ℕ) → IsPrime (suc n) → pow x (suc n) % suc n ≡ x % suc n
fermat n zero prime = ap (λ t. t % suc n) {x = pow 0 (suc n)} {y = 0} (omega (arith, pow-suc 0 n))
fermat n (suc x) prime =
    dream n x prime
    ∙ add-mod 1 (pow x (suc n)) (suc n)
    ∙ ap (λ t. (1 % suc n + t) % suc n) (fermat n x prime)
    ∙ sym (add-mod 1 x (suc n))
    ∙ ap (λ t. t % suc n) {x = 1 + x} {y = suc x} (omega arith)

-- A number that the prime does not divide, to the power of the prime less one, is one.
pub fermat_unit : (q x : ℕ) → IsPrime q → x % q ≢ 0 → pow x (q - 1) % q ≡ 1
fermat_unit zero x prime h = absurd (omega (arith, prime.above))
fermat_unit (suc n) x prime h =
    let (y, one) = inverse_modulo x prime h in
    ap (λ t. pow x t % suc n) {x = suc n - 1} {y = n} (omega arith)
    ∙ ap (λ t. t % suc n) {x = pow x n} {y = pow x n * 1} (omega arith)
    ∙ ap (λ t. pow x n * t % suc n) (sym one)
    ∙ reduce_right (pow x n) (x * y) (suc n)
    ∙ ap (λ t. t % suc n) (regroup (pow x n) x y ∙ ap (λ t. t * y) (sym (pow-suc x n)))
    ∙ sym (mul-mod_left (pow x (suc n)) y (suc n))
    ∙ ap (λ t. t * y % suc n) (fermat n x prime)
    ∙ mul-mod_left x y (suc n)
    ∙ one
  where
    regroup : (p x y : ℕ) → p * (x * y) ≡ p * x * y
    regroup p x y = omega arith

-- Modulo a prime p with p + 1 = 4 e, the power of a square by e is a root of it.
pub root_of_square :
    (n e r : ℕ)
    → IsPrime (suc n)
    → e + e + (e + e) ≡ suc n + 1
    → (pow (r * r % suc n) e % suc n) * (pow (r * r % suc n) e % suc n) % suc n ≡ r * r % suc n
root_of_square n e r prime h =
    mul-mod (pow (r * r % suc n) e) (pow (r * r % suc n) e) (suc n)
    ∙ ap (λ t. t % suc n) (sym (pow-add (r * r % suc n) e e))
    ∙ pow-mod (r * r) (e + e) (suc n)
    ∙ ap (λ t. t % suc n)
        (pow-mul_base r r (e + e)
          ∙ sym (pow-add r (e + e) (e + e))
          ∙ ap (pow r) {x = e + e + (e + e)} {y = suc (suc n)} (omega arith)
          ∙ pow-suc r (suc n))
    ∙ sym (mul-mod_left (pow r (suc n)) r (suc n))
    ∙ ap (λ t. t * r % suc n) (fermat n r prime)
    ∙ mul-mod_left r r (suc n)

-- Euler's criterion: with p = 2 h + 1, a number whose power by h is -1 is no square.
pub no_root :
    (p h d r : ℕ) → IsPrime p → h + h + 1 ≡ p → 0 < h → pow d h % p ≡ p - 1 → r * r % p ≡ d % p → ⊥
no_root p h d r prime size pos euler root = elim (zero-cases (r % p)) [
  | inl e ↦ vanishes h pos euler (
      sym root
      ∙ sym (mul-mod_left r r p)
      ∙ ap (λ t. t * r % p) e
      ∙ ap (λ t. t % p) {x = 0 * r} {y = 0} (omega arith)
      ∙ mod-eq_of_lt (omega (arith, prime.above)))
  | inr e ↦ omega (
    arith,
    size,
    prime.above,
    sym euler
        ∙ sym (pow-mod d h p)
        ∙ ap (λ t. pow t h % p) (sym root)
        ∙ pow-mod (r * r) h p
        ∙ ap (λ t. t % p)
            (pow-mul_base r r h
              ∙ sym (pow-add r h h)
              ∙ ap (pow r) {x = h + h} {y = p - 1} (omega arith))
        ∙ fermat_unit p r prime e,
  )
]
  where
    vanishes : (h : ℕ) → 0 < h → pow d h % p ≡ p - 1 → d % p ≡ 0 → ⊥
    vanishes zero pos e z = omega arith
    vanishes (suc h) pos e z = omega (
      arith,
      prime.above,
      sym e
          ∙ ap (λ t. t % p) (pow-suc d h)
          ∙ sym (reduce_right (pow d h) d p)
          ∙ ap (λ t. pow d h * t % p) z
          ∙ ap (λ t. t % p) {x = pow d h * 0} {y = 0} (omega arith)
          ∙ mod-eq_of_lt (omega (arith, prime.above)),
    )
