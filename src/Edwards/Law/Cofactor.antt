-- ===== src/Edwards/Law/Cofactor.antt =====
-- edwards.rs: the cofactor cancels on points of order L.
use ed301_eddsa.Base.{ℕ, ◌+◌, ◌*◌, ◌/◌, ◌%◌, arith, ◌≡◌, sym, ap, ◌∙◌}
use ed301_eddsa.Parameters.{scalar_modulus}
use ed301_eddsa.Numbers.Primes.{inverse_modulo}
use ed301_eddsa.Numbers.OrderPrime.{scalar_modulus-IsPrime}
use ed301_eddsa.Libraries.Bigint.{Bigint}
use ed301_eddsa.Edwards.Affine.{Affine}
use ed301_eddsa.Edwards.Law.{OnAffine, sum, neutral, sum-neutral, neutral-OnAffine}
use ed301_eddsa.Edwards.Law.Times.{
  times, times-add, times-mul, times-one, times-neutral, times-sum, times-OnAffine, neutral-sum,
}

module _ ⦃b : Bigint⦄ where
  -- The number of times is taken modulo L.
  times_reduced :
      (n : ℕ) (p : Affine)
      → OnAffine p
      → times scalar_modulus p ≡ neutral
      → times (n % scalar_modulus) p ≡ times n p
  times_reduced n p h e =
      sym (neutral-sum _ (times-OnAffine _ p h))
      ∙ ap (λ t. sum t (times (n % scalar_modulus) p))
          (sym (times-neutral (n / scalar_modulus))
            ∙ ap (times (n / scalar_modulus)) (sym e)
            ∙ sym (times-mul (n / scalar_modulus) scalar_modulus p h))
      ∙ sym (times-add (n / scalar_modulus * scalar_modulus) (n % scalar_modulus) p h)
      ∙ ap (λ t. times t p) {x = n / scalar_modulus * scalar_modulus + n % scalar_modulus} {y = n}
          (omega arith)

  -- The fourfold sum, as the double of the double.
  pub fourfold_times : (p : Affine) → OnAffine p → sum (sum p p) (sum p p) ≡ times 4 p
  fourfold_times p h = sym (
      times-add 2 2 p h ∙ ap (λ t. sum t t) (times-add 1 1 p h ∙ ap (λ t. sum t t) (times-one p h)))

  -- Two points of order L with the same fourfold sum are the same.
  pub cofactor_cancel :
      (p q : Affine)
      → OnAffine p
      → OnAffine q
      → times scalar_modulus p ≡ neutral
      → times scalar_modulus q ≡ neutral
      → times 4 p ≡ times 4 q
      → p ≡ q
  cofactor_cancel p q hp hq ep eq same =
      let (y, one) = inverse_modulo 4 scalar_modulus-IsPrime (λ e. omega (arith, e)) in
      let back = λ (r : Affine) (h : OnAffine r) (e : times scalar_modulus r ≡ neutral).
        sym (times-mul y 4 r h)
        ∙ sym (times_reduced (y * 4) r h e)
        ∙ ap (λ t. times t r) {x = y * 4 % scalar_modulus} {y = 1} (omega (arith, one))
        ∙ times-one r h in
      sym (back p hp ep) ∙ ap (times y) same ∙ back q hq eq

  pub order-sum :
      (p q : Affine)
      → OnAffine p
      → OnAffine q
      → times scalar_modulus p ≡ neutral
      → times scalar_modulus q ≡ neutral
      → times scalar_modulus (sum p q) ≡ neutral
  order-sum p q hp hq ep eq =
      times-sum scalar_modulus p q hp hq
      ∙ (λ i. sum (ep i) (eq i))
      ∙ sum-neutral neutral neutral-OnAffine

  pub order-multiple :
      (n : ℕ) (p : Affine)
      → OnAffine p
      → times scalar_modulus p ≡ neutral
      → times scalar_modulus (times n p) ≡ neutral
  order-multiple n p h e =
      sym (times-mul scalar_modulus n p h)
      ∙ ap (λ t. times t p) {x = scalar_modulus * n} {y = n * scalar_modulus} (omega arith)
      ∙ times-mul n scalar_modulus p h
      ∙ ap (times n) e
      ∙ times-neutral n
