-- ===== src/Edwards/Law/Cyclic.antt =====
-- edwards.rs: the multiples of the base point, by a number modulo L.
use ed301_eddsa.Base.{ℕ, ◌+◌, ◌-◌, ◌*◌, ◌/◌, ◌%◌, arith, ◌≡◌, ◌≢◌, refl, sym, ap, ◌∙◌, inl, inr}
use ed301_eddsa.Base.Words.{words_value}
use ed301_eddsa.Parameters.{field_modulus, scalar_modulus}
use ed301_eddsa.Numbers.Primes.{inverse_modulo, zero-cases}
use ed301_eddsa.Numbers.OrderPrime.{scalar_modulus-IsPrime}
use ed301_eddsa.Ring.{◌⊗◌}
use ed301_eddsa.Ring.Laws.{zero-mul}
use ed301_eddsa.Libraries.Bigint.{Bigint}
use ed301_eddsa.Field
use ed301_eddsa.Field.Arith.{field_ring}
use ed301_eddsa.Edwards.{basepoint}
use ed301_eddsa.Edwards.Complete.Generator.{x_words, from_words_eq}
use ed301_eddsa.Edwards.Law.{sum, neutral}
use ed301_eddsa.Edwards.Law.Times.{
  times, times-zero, times-add, times-mul, times-one, times-neutral, times-OnAffine, neutral-sum,
}
use ed301_eddsa.Edwards.Law.Order.{base, basepoint-Stands, base-OnAffine, order_lem}

module _ ⦃b : Bigint⦄ where
  base_x-nonzero : basepoint.x ≢ Field.zero_element
  unfolding basepoint Field.zero_element
  base_x-nonzero h = refuted (
      sym (b.field_form.retrieve-new (words_value x_words))
      ∙ ap b.field_form.base.retrieve (sym (from_words_eq x_words refl (omega arith)) ∙ h)
      ∙ b.field_form.retrieve-zero)
    where
      refuted : words_value x_words % field_modulus ≡ 0 % field_modulus → ⊥
      refuted e = omega (arith, e)

  base_ne_neutral : base ≢ neutral
  unfolding neutral Field.zero_element
  base_ne_neutral h =
      base_x-nonzero
        (basepoint-Stands.represents.x_coordinate ∙ ap (λ t. t.u ⊗ basepoint.z) h ∙ zero-mul _)

  multiple_of_order : (n : ℕ) → times (n * scalar_modulus) base ≡ neutral
  multiple_of_order n =
      times-mul n scalar_modulus base base-OnAffine ∙ ap (times n) order_lem ∙ times-neutral n

  -- A multiple of the base point depends on the number modulo L.
  pub times-mod : (s : ℕ) → times (s % scalar_modulus) base ≡ times s base
  times-mod s =
      sym (neutral-sum _ (times-OnAffine _ base base-OnAffine))
      ∙ ap (λ t. sum t (times (s % scalar_modulus) base))
          (sym (multiple_of_order (s / scalar_modulus)))
      ∙ sym
          (times-add (s / scalar_modulus * scalar_modulus) (s % scalar_modulus) base base-OnAffine)
      ∙ ap (λ t. times t base) {x = s / scalar_modulus * scalar_modulus + s % scalar_modulus}
          {y = s} (omega arith)

  pub times_congr :
      (s t : ℕ) → s % scalar_modulus ≡ t % scalar_modulus → times s base ≡ times t base
  times_congr s t h = sym (times-mod s) ∙ ap (λ r. times r base) h ∙ times-mod t

  -- No other multiple of the base point is neutral.
  pub times-eq-neutral : (s : ℕ) → times s base ≡ neutral → s % scalar_modulus ≡ 0
  times-eq-neutral s h = elim (zero-cases (s % scalar_modulus)) [
    | inl zero ↦ zero
    | inr other ↦
        let (y, one) = inverse_modulo s scalar_modulus-IsPrime other in
        absurd (
          base_ne_neutral (
            sym (times-one base base-OnAffine)
            ∙ times_congr 1 (y * s)
                (sym (ap (λ t. t % scalar_modulus) {x = y * s} {y = s * y} (omega arith) ∙ one))
            ∙ times-mul y s base base-OnAffine
            ∙ ap (times y) h
            ∙ times-neutral y))
  ]

  -- L times a multiple of the base point is neutral.
  pub order-times : (s : ℕ) → times scalar_modulus (times s base) ≡ neutral
  order-times s =
      sym (times-mul scalar_modulus s base base-OnAffine)
      ∙ ap (λ t. times t base) {x = scalar_modulus * s} {y = s * scalar_modulus} (omega arith)
      ∙ multiple_of_order s

  -- Two multiples of the base point that are equal have numbers equal modulo L.
  pub times_injective :
      (s t : ℕ) → times s base ≡ times t base → s % scalar_modulus ≡ t % scalar_modulus
  times_injective s t h =
      let rest : ℕ = scalar_modulus - t % scalar_modulus in
      let shifted = times-eq-neutral (s + rest) (
        times-add s rest base base-OnAffine
        ∙ ap (λ p. sum p (times rest base)) h
        ∙ sym (times-add t rest base base-OnAffine)
        ∙ times_congr (t + rest) 0 (omega arith)
        ∙ times-zero base) in
      omega (arith, shifted)
