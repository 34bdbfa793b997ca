-- ===== src/Numbers/Pocklington.antt =====
-- Pocklington's criterion: a number is prime if enough of its predecessor is factored, and for each
-- prime factor there is a number of a fitting order.
use mathlib.Core.Path.{subst}
use native.Mathlib.Nat.{
  mod-lt, div-add-mod, mul-mod_right, eq_of_mul-eq-mul_right, mod-mod, add-mod, zero-mod,
}
use ed301_eddsa.Base.{
  ℕ, zero, suc, ◌+◌, ◌-◌, ◌*◌, ◌/◌, ◌%◌, ◌^◌, ◌<◌, ◌≤◌, arith, ltb, ltb→lt, ◌==◌, ==_iff, Bool,
  true, not, ◌&&◌, Bool-cases, ◌⊎◌, inl, inr, ◌≢◌, List, [], ◌∷◌,
}
use ed301_eddsa.Base.{◌≡◌, refl, sym, ap, ap₂, ◌∙◌}
use ed301_eddsa.Numbers.Powers.{pow, power, power_lem, mul-mod_left}
use ed301_eddsa.Numbers.Primes.{IsPrime, euclid_lem}
use ed301_eddsa.Numbers.Divisors.{IsPrime-divisor}
use ed301_eddsa.Numbers.Orders.{divides_pred}

-- A prime factor of p - 1, a number of an order that the factor divides fully, and the inverse of
-- what its power by (p - 1) / factor differs from one.
pub record Certificate : Type 0 where
  pub factor : ℕ
  pub base : ℕ
  pub inverse : ℕ

abbrev pub product : List Certificate → ℕ
product [] = 1
product (c ∷ cs) = product cs * c.factor

-- The checks of one certificate for p below 2^k, with the product of the later factors.
abbrev pub certify : ℕ → ℕ → ℕ → Certificate → Bool
certify p k rest c =
    (((p - 1) / c.factor * c.factor + 1 == p) && (power p k c.base (p - 1) == 1))
    && ((c.inverse * (power p k c.base ((p - 1) / c.factor) + (p - 1)) % p == 1)
        && not (rest % c.factor == 0))

abbrev pub Certified : ℕ → ℕ → List Certificate → Type 0
Certified p k [] = Unit {0}
Certified p k (c ∷ cs) = IsPrime c.factor × (certify p k (product cs) c ≡ true) × Certified p k cs

record IsCertified (p k rest : ℕ) (c : Certificate) : Type 0 where
  split : (p - 1) / c.factor * c.factor + 1 ≡ p
  whole : power p k c.base (p - 1) ≡ 1
  inverse : c.inverse * (power p k c.base ((p - 1) / c.factor) + (p - 1)) % p ≡ 1
  coprime : rest % c.factor ≢ 0

four :
    (x y z u v w : ℕ) (r : ℕ)
    → ((x == y && z == u) && (v == w && not (r == 0))) ≡ true
    → (x ≡ y) × (z ≡ u) × (v ≡ w) × (r ≢ 0)
four x y z u v w r h = ground arith

certify_sound :
    (p k rest : ℕ) (c : Certificate) → certify p k rest c ≡ true → IsCertified p k rest c
certify_sound p k rest c h =
    let (split, whole, inverse, coprime) =
      four ((p - 1) / c.factor * c.factor + 1) p (power p k c.base (p - 1)) 1
        (c.inverse * (power p k c.base ((p - 1) / c.factor) + (p - 1)) % p) 1 (rest % c.factor) h in
    record { split = split; whole = whole; inverse = inverse; coprime = coprime }

product_bound : (n f p : ℕ) → n * f + 1 ≡ p → 1 < f → n < p
product_bound n f p h big =
    let e : f ≡ 1 + (f - 1) = omega arith in omega (arith, h, ap (λ (t : ℕ). n * t) e)

-- A prime that divides n and not F, beside F that divides n.
times_prime : (n F f : ℕ) → IsPrime f → n % F ≡ 0 → n % f ≡ 0 → F % f ≢ 0 → n % (F * f) ≡ 0
times_prime n F f prime h k other = elim (euclid_lem F (n / F) prime (ap (λ t. t % f) whole ∙ k)) [
  | inl e ↦ absurd (other e)
  | inr e ↦
      ap (λ t. t % (F * f))
        (sym whole
          ∙ omega (arith, ap (λ (t : ℕ). F * t) (div-add-mod (n / F) f), ap (λ (t : ℕ). F * t) e))
      ∙ mul-mod_right (F * f) (n / F / f)
]
  where
    whole : F * (n / F) ≡ n
    whole = omega (arith, div-add-mod n F, h)

module _ (p k : ℕ) (above : 1 < p) (below : p < 2 ^ k) where
  divides_product :
      (cs : List Certificate) (q : ℕ)
      → IsPrime q
      → p % q ≡ 0
      → Certified p k cs
      → (q - 1) % product cs ≡ 0
  divides_product [] q prime divides h = omega arith
  divides_product (c ∷ cs) q prime divides (prime_f, checked, rest) =
      let h = certify_sound p k (product cs) c checked in
      times_prime (q - 1) (product cs) c.factor prime_f (divides_product cs q prime divides rest)
        (divides_pred p q c.factor n c.base (pow c.base n % p) c.inverse prime prime_f above divides
          h.split
          (ap (λ t. pow c.base t % p) {x = n * c.factor} {y = p - 1} (omega (arith, h.split))
            ∙ sym (power_lem p k c.base (p - 1) (omega arith))
            ∙ h.whole)
          refl
          (ap (λ t. c.inverse * (t + (p - 1)) % p)
              (sym (
                power_lem p k c.base n
                  (omega (arith, product_bound n c.factor p h.split prime_f.above))))
            ∙ h.inverse))
        h.coprime
    where
      n : ℕ
      n = (p - 1) / c.factor

-- (1 + a F) (1 + b F) has a middle term a + b, which is not above a b + 1.
sum_bound : (a b : ℕ) → 1 ≤ a → 1 ≤ b → a + b ≤ a * b + 1
sum_bound zero b h k = absurd (omega arith)
sum_bound (suc a) zero h k = absurd (omega arith)
sum_bound (suc a) (suc b) h k = omega arith

step_up : (c t F : ℕ) → c < t → c * F + F ≤ t * F
step_up c t F h =
    let e : t ≡ c + 1 + (t - c - 1) = omega arith in omega (arith, ap (λ (x : ℕ). x * F) e)

order_cases : (x y : ℕ) → (x < y) ⊎ ((y < x) ⊎ (x ≡ y))
order_cases x y = elim (Bool-cases (ltb x y)) [
  | inl less ↦ inl (ltb→lt x y less)
  | inr h ↦ elim (Bool-cases (x == y)) [
    | inl same ↦ inr (inr ((==_iff x y).0 same))
    | inr other ↦ inr (inl (ground arith))
  ]
]

no_split :
    (F t s a b : ℕ)
    → s < F
    → t * F + s ≡ a * b * F + (a + b)
    → 1 ≤ a
    → 1 ≤ b
    → t + 1 < F
    → t + 1 < s
    → ⊥
no_split F t s a b small e ha hb ht hs = elim (order_cases (a * b) t) [
  | inl less ↦ omega (arith, sum_bound a b ha hb, step_up (a * b) t F less)
  | inr (inl more) ↦ omega (arith, step_up t (a * b) F more)
  | inr (inr same) ↦ omega (arith, sum_bound a b ha hb, ap (λ (x : ℕ). x * F) same)
]

-- A number one above a multiple of F.
above_multiple : (x F : ℕ) → 1 < x → (x - 1) % F ≡ 0 → (a : ℕ) × (1 ≤ a) × (x ≡ 1 + a * F)
above_multiple x F big h =
    let e : (x - 1) / F * F + 1 ≡ x = omega (arith, div-add-mod (x - 1) F) in
    ((x - 1) / F, positive ((x - 1) / F) e, omega (arith, e))
  where
    positive : (a : ℕ) → a * F + 1 ≡ x → 1 ≤ a
    positive zero e = absurd (omega (arith, e))
    positive (suc a) e = omega arith

unit_below : (x : ℕ) → x < 1 → x ≡ 0
unit_below x h = omega arith

-- The factored part of p - 1.
abbrev pub Suffices : ℕ → ℕ → Type 0
Suffices p F =
    (1 < F)
    × ((p - 1) % F ≡ 0)
    × ((p - 1) / F / F + 1 < F)
    × ((p - 1) / F / F + 1 < (p - 1) / F % F)

-- Two factors of p above one that both exceed a multiple of F by one leave no room.
no_factors :
    (p F x y : ℕ) → Suffices p F → 1 < x → 1 < y → x * y ≡ p → (x - 1) % F ≡ 0 → (y - 1) % F ≡ 0 → ⊥
no_factors p F x y (big, whole, few, middle) hx hy e ex ey =
    let (a, ha, xa) = above_multiple x F hx ex in
    let (b, hb, yb) = above_multiple y F hy ey in
    no_split F (r / F) (r % F) a b (mod-lt r (omega arith)) (div_add r ∙ parts a b xa yb) ha hb few
      middle
  where
    r : ℕ
    r = (p - 1) / F

    div_add : (n : ℕ) → n / F * F + n % F ≡ n
    div_add n = omega (arith, div-add-mod n F)

    parts : (a b : ℕ) → x ≡ 1 + a * F → y ≡ 1 + b * F → r ≡ a * b * F + (a + b)
    parts a b xa yb =
        eq_of_mul-eq-mul_right F (omega arith) r (a * b * F + (a + b))
          (omega (arith, div-add-mod (p - 1) F, whole, e, ap₂ (λ (s t : ℕ). s * t) xa yb))

-- The cofactor of a prime divisor is one above a multiple of F too.
cofactor_lem :
    (p F q y : ℕ) → 1 ≤ y → 1 < q → q * y ≡ p → (p - 1) % F ≡ 0 → (q - 1) % F ≡ 0 → (y - 1) % F ≡ 0
cofactor_lem p F q y pos big e h k =
    sym (mod-mod (y - 1) F)
    ∙ ap (λ t. t % F) {x = (y - 1) % F} {y = 0 + (y - 1) % F} (omega arith)
    ∙ ap (λ t. (t + (y - 1) % F) % F)
        (sym (
          sym (mul-mod_left (q - 1) y F)
          ∙ ap (λ t. t * y % F) k
          ∙ ap (λ t. t % F) {x = 0 * y} {y = 0} (omega arith)
          ∙ zero-mod F))
    ∙ sym (add-mod ((q - 1) * y) (y - 1) F)
    ∙ ap (λ t. t % F) split
    ∙ h
  where
    split : (q - 1) * y + (y - 1) ≡ p - 1
    split = let one : q ≡ 1 + (q - 1) = omega arith in omega (arith, e, ap (λ (t : ℕ). t * y) one)

module _ (p k : ℕ) (above : 1 < p) (below : p < 2 ^ k) where
  -- Pocklington's criterion, with the cube of F above p.
  pub pocklington : (cs : List Certificate) → Certified p k cs → Suffices p (product cs) → IsPrime p
  pocklington cs certified enough =
      let (q, prime, divides) = IsPrime-divisor p above in
      let e : q * (p / q) ≡ p = omega (arith, div-add-mod p q, divides) in
      let q_one = divides_product p k above below cs q prime divides certified in
      elim (order_cases (p / q) 1) [
        | inl less ↦ absurd (omega (arith, e, ap (λ (t : ℕ). q * t) (unit_below (p / q) less)))
        | inr (inl more) ↦ absurd (
            no_factors p (product cs) q (p / q) enough prime.above more e q_one
              (cofactor_lem p (product cs) q (p / q) (omega arith) prime.above e enough.1 q_one))
        | inr (inr one) ↦ subst IsPrime (omega (arith, e, ap (λ (t : ℕ). q * t) one)) prime
      ]
