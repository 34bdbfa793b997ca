-- ===== src/Numbers/Divisors.antt =====
-- Trial division, and that every number above one has a prime divisor.
use mathlib.Core.WellFounded
use native.Mathlib.Nat.{mul-mod_right, mod_self, dvd_of_mod-eq-zero, dvd_trans, mod-eq-zero_of_dvd}
use ed301_eddsa.Base.{
  ℕ, zero, suc, ◌*◌, ◌%◌, ◌<◌, ◌≤◌, arith, lt_wf, ltb, ltb→lt, ◌==◌, ==_iff, Bool, true, false, not,
  ◌&&◌, ◌||◌, Bool-cases, and-eq-true, ◌⊎◌, inl, inr, ◌≢◌,
}
use ed301_eddsa.Base.{◌≡◌, refl, sym, ap, ◌∙◌}
use ed301_eddsa.Numbers.Primes.{IsPrime, zero-cases}

-- No number from 2 to below `k` divides `n`.
unfoldable pub no_divisor : ℕ → ℕ → Bool
no_divisor zero n = true
no_divisor (suc k) n = (ltb k 2 || not (n % k == 0)) && no_divisor k n

no_divisor_sound : (k n d : ℕ) → no_divisor k n ≡ true → 1 < d → d < k → n % d ≢ 0
unfolding no_divisor
no_divisor_sound zero n d h a b e = omega arith
no_divisor_sound (suc k) n d h a b e =
    let (here, before) = and-eq-true (ltb k 2 || not (n % k == 0)) (no_divisor k n) h in
    elim (Bool-cases (d == k)) [
      | inl same ↦ absurd (
          refuted k (n % k) (omega (arith, (==_iff d k).0 same))
            (ap (λ t. n % t) (sym ((==_iff d k).0 same)) ∙ e) here)
      | inr other ↦ no_divisor_sound k n d before a (ground arith) e
    ]
  where
    refuted : (k r : ℕ) → 1 < k → r ≡ 0 → (ltb k 2 || not (r == 0)) ≡ true → ⊥
    refuted k r a e h = ground arith

factor_mod : (x y : ℕ) → x * y % x ≡ 0
factor_mod x y = mul-mod_right x y

-- A factor that is no divisor from 2 to below `k` is one, or at least `k`.
factor_cases : (k n x y : ℕ) → 0 < n → no_divisor k n ≡ true → x * y ≡ n → (x ≡ 1) ⊎ (k ≤ x)
factor_cases k n x y pos h e = elim (zero-cases x) [
  | inl none ↦ absurd (omega (arith, e, ap (λ (t : ℕ). t * y) none))
  | inr some ↦ elim (Bool-cases (ltb 1 x && ltb x k)) [
    | inl between ↦
        let (a, b) = and-eq-true (ltb 1 x) (ltb x k) between in
        absurd (
          no_divisor_sound k n x h (ltb→lt 1 x a) (ltb→lt x k b)
            (ap (λ t. t % x) (sym e) ∙ factor_mod x y))
    | inr outside ↦ decide x some outside
  ]
]
  where
    decide : (x : ℕ) → x ≢ 0 → (ltb 1 x && ltb x k) ≡ false → (x ≡ 1) ⊎ (k ≤ x)
    decide x some h = elim (Bool-cases (x == 1)) [
      | inl one ↦ inl ((==_iff x 1).0 one)
      | inr more ↦ inr (ground arith)
    ]

pub trial_division : (k n : ℕ) → 1 < n → n < k * k → no_divisor k n ≡ true → IsPrime n
trial_division k n big bound h = record { above = big; only = only }
  where
    only : (x y : ℕ) → x * y ≡ n → (x ≡ 1) ⊎ (y ≡ 1)
    only x y e = elim (factor_cases k n x y (omega arith) h e) [
      | inl one ↦ inl one
      | inr left ↦ elim (factor_cases k n y x (omega arith) h (omega (arith, e))) [
        | inl one ↦ inr one
        | inr right ↦ absurd (grind (arith, e))
      ]
    ]

-- Trial division finds a divisor, or there is none.
search_divisor : (k n : ℕ) → ((d : ℕ) × (1 < d) × (d < k) × (n % d ≡ 0)) ⊎ (no_divisor k n ≡ true)
unfolding no_divisor
search_divisor zero n = inr refl
search_divisor (suc k) n = elim (search_divisor k n) [
  | inl (d, a, b, e) ↦ inl (d, a, omega arith, e)
  | inr before ↦ elim (Bool-cases (ltb k 2 || not (n % k == 0))) [
    | inl here ↦ inr (rw (here, before))
    | inr divides ↦ inl (k, ground arith, omega arith, ground arith)
  ]
]

IsPrime-of_no_divisor : (n : ℕ) → 1 < n → no_divisor n n ≡ true → IsPrime n
IsPrime-of_no_divisor n big h = record { above = big; only = only }
  where
    only : (x y : ℕ) → x * y ≡ n → (x ≡ 1) ⊎ (y ≡ 1)
    only x y e = elim (factor_cases n n x y (omega arith) h e) [
      | inl one ↦ inl one
      | inr left ↦ elim (factor_cases n n y x (omega arith) h (omega (arith, e))) [
        | inl one ↦ inr one
        | inr right ↦ absurd (grind (arith, e))
      ]
    ]

pub IsPrime-divisor : (n : ℕ) → 1 < n → (q : ℕ) × IsPrime q × (n % q ≡ 0)
IsPrime-divisor n =
    WellFounded.induction lt_wf {C = λ n. 1 < n → (q : ℕ) × IsPrime q × (n % q ≡ 0)} n λ n ih big.
      elim (search_divisor n n) [
        | inl (d, a, b, e) ↦
            let (q, prime, divides) = ih d b a in
            (
              q,
              prime,
              mod-eq-zero_of_dvd q
                  (dvd_trans q (dvd_of_mod-eq-zero q divides) (dvd_of_mod-eq-zero d e)),
            )
        | inr h ↦ (n, IsPrime-of_no_divisor n big h, mod_self n)
      ]
