-- ===== src/Numbers/Orders.antt =====
-- Orders of numbers modulo a prime: what a power that is one, and one that is not, say of it.
use native.Mathlib.Nat.{mod-eq_of_lt, div-add-mod, add-mod, mod-mod_of_dvd, dvd_of_mod-eq-zero}
use ed301_eddsa.Base.{ℕ, zero, suc, ◌+◌, ◌-◌, ◌*◌, ◌/◌, ◌%◌, ◌<◌, arith, inl, inr, ◌≢◌}
use ed301_eddsa.Base.{◌≡◌, sym, ap, ◌∙◌}
use ed301_eddsa.Numbers.Powers.{
  pow, pow-suc, pow-mul, pow-add, pow-mod, pow-one, mul-mod_right as reduce_right,
}
use ed301_eddsa.Numbers.Primes.{IsPrime, inverse_modulo, zero-cases}
use ed301_eddsa.Numbers.Fermat.{fermat_unit}

-- From modulo p to modulo a divisor of p.
descend : (x p q : ℕ) → p % q ≡ 0 → 1 < q → x % p ≡ 1 → x % q ≡ 1
descend x p q h big e =
    sym (mod-mod_of_dvd q x (dvd_of_mod-eq-zero q h)) ∙ ap (λ t. t % q) e ∙ mod-eq_of_lt big

zero_ne_one : {x : ℕ} → x ≡ 0 → x ≡ 1 → ⊥
zero_ne_one e h = omega (arith, e, h)

-- A number with a power that is one has no common divisor with a prime modulus.
unit_of_power : (a n q : ℕ) → IsPrime q → 0 < n → pow a n % q ≡ 1 → a % q ≢ 0
unit_of_power a zero q prime pos h e = omega arith
unit_of_power a (suc n) q prime pos h e =
    zero_ne_one
      (ap (λ t. t % q) (pow-suc a n)
        ∙ sym (reduce_right (pow a n) a q)
        ∙ ap (λ t. pow a n * t % q) e
        ∙ ap (λ t. t % q) {x = pow a n * 0} {y = 0} (omega arith)
        ∙ mod-eq_of_lt (omega (arith, prime.above)))
      h

pow_of_one : (x n q : ℕ) → 1 < q → x % q ≡ 1 → pow x n % q ≡ 1
pow_of_one x n q big h =
    sym (pow-mod x n q) ∙ ap (λ t. pow t n % q) h ∙ ap (λ t. t % q) (pow-one n) ∙ mod-eq_of_lt big

-- Where (q - 1) u = 1 + v f, the power by n is one modulo q if those by n f and by q - 1 are.
order_lem :
    (a n f d u q : ℕ)
    → 1 < q
    → pow a (n * f) % q ≡ 1
    → pow a d % q ≡ 1
    → d * u % f ≡ 1
    → pow a n % q ≡ 1
order_lem a n f d u q big whole little e =
    ap (λ t. t % q) {x = pow a n} {y = pow a n * 1} (omega arith)
    ∙ ap (λ t. pow a n * t % q) (sym (pow_of_one (pow a (n * f)) v q big whole))
    ∙ reduce_right (pow a n) (pow (pow a (n * f)) v) q
    ∙ ap (λ t. t % q)
        (ap (λ t. pow a n * t) (sym (pow-mul a (n * f) v))
          ∙ sym (pow-add a n (n * f * v))
          ∙ ap (pow a) exponent
          ∙ pow-mul a d (u * n))
    ∙ pow_of_one (pow a d) (u * n) q big little
  where
    v : ℕ
    v = d * u / f

    exponent : n + n * f * v ≡ d * (u * n)
    exponent = omega (arith, ap (λ (t : ℕ). n * t) (div-add-mod (d * u) f), ap (λ (t : ℕ). n * t) e)

-- The same prime divides q - 1 for every prime divisor q of p if a number to the power p - 1 is one
-- modulo p, and to the power (p - 1) / f less one is invertible.
pub divides_pred :
    (p q f n a r w : ℕ)
    → IsPrime q
    → IsPrime f
    → 1 < p
    → p % q ≡ 0
    → n * f + 1 ≡ p
    → pow a (n * f) % p ≡ 1
    → pow a n % p ≡ r
    → w * (r + (p - 1)) % p ≡ 1
    → (q - 1) % f ≡ 0
divides_pred p q f n a r w prime_q prime_f above divides split whole part inverse =
    elim (zero-cases ((q - 1) % f)) [
      | inl e ↦ e
      | inr other ↦
          let (u, one) = inverse_modulo (q - 1) prime_f other in
          let whole_q = descend (pow a (n * f)) p q divides prime_q.above whole in
          let little =
            fermat_unit q a prime_q (unit_of_power a (n * f) q prime_q (omega arith) whole_q) in
          let part_q = order_lem a n f (q - 1) u q prime_q.above whole_q little one in
          absurd (
            zero_ne_one (vanishes part_q)
              (descend (w * (r + (p - 1))) p q divides prime_q.above inverse))
    ]
  where
    vanishes : pow a n % q ≡ 1 → w * (r + (p - 1)) % q ≡ 0
    vanishes h =
        sym (reduce_right w (r + (p - 1)) q)
        ∙ ap (λ t. w * t % q)
            (add-mod r (p - 1) q
              ∙ ap (λ t. (t + (p - 1) % q) % q)
                  (ap (λ t. t % q) (sym part)
                    ∙ mod-mod_of_dvd q (pow a n) (dvd_of_mod-eq-zero q divides)
                    ∙ h
                    ∙ sym (mod-eq_of_lt prime_q.above))
              ∙ sym (add-mod 1 (p - 1) q)
              ∙ ap (λ t. t % q) {x = 1 + (p - 1)} {y = p} (omega arith)
              ∙ divides)
        ∙ ap (λ t. t % q) {x = w * 0} {y = 0} (omega arith)
        ∙ mod-eq_of_lt (omega (arith, prime_q.above))
