-- ===== src/Edwards/Rounds.antt =====
-- edwards.rs: the rounds of `scalar_mul_with` from scaled accumulators.
use ed301_eddsa.Base.{ℕ, zero, suc, ◌≡◌, refl, ap, ◌∙◌, Bool, true, false, [], ◌∷◌, if◌then◌else◌}
use ed301_eddsa.Ring.{◌⊕◌, ◌⊗◌, ◌⊖◌}
use ed301_eddsa.Ring.Terms.{Term, var, zero_term, one_term, minus, squared, ◌:+◌, ◌:-◌, ◌:*◌}
use ed301_eddsa.Ring.Solver.{solve}
use ed301_eddsa.Libraries.Bigint.{Bigint}
use ed301_eddsa.Field
use ed301_eddsa.Field.{FieldElement}
use ed301_eddsa.Field.Arith.{field_ring}
use ed301_eddsa.Edwards.{
  EdwardsPoint, edwards_a, two, identity, add, double, rounds_from, conditional_select,
}
use ed301_eddsa.Edwards.OnCurve.{select_lem, two_lem}
use ed301_eddsa.Edwards.Scaled.{IsScaled, scaled_eq, double-scale, add-scale}

module _ ⦃b : Bigint⦄ where
  moved : {p q r : EdwardsPoint} → r ≡ q → IsScaled p q → IsScaled p r
  moved e h = rw e h

  pub double-IsScaled : {p q : EdwardsPoint} → IsScaled p q → IsScaled (double p) (double q)
  double-IsScaled {p} h = moved (ap double (scaled_eq h)) (double-scale h.factor h.inverse p h.unit)

  pub add-IsScaled :
      {p q : EdwardsPoint} (r : EdwardsPoint) → IsScaled p q → IsScaled (add p r) (add q r)
  add-IsScaled {p} r h =
      moved (ap (λ t. add t r) (scaled_eq h)) (add-scale h.factor h.inverse p r h.unit)

  -- One round, and the rounds that are left.
  abbrev pub round : EdwardsPoint → Bool → EdwardsPoint → EdwardsPoint
  round self bit accumulator =
      conditional_select (double accumulator) (add (double accumulator) self) bit

  round-IsScaled :
      (self : EdwardsPoint) (bit : Bool) {p q : EdwardsPoint}
      → IsScaled p q
      → IsScaled (round self bit p) (round self bit q)
  round-IsScaled self bit {p} {q} h =
      rw
        (
          select_lem (double p) (add (double p) self) bit,
          select_lem (double q) (add (double q) self) bit,
        )
        (chosen bit)
    where
      chosen :
          (c : Bool)
          → IsScaled
              (if c then add (double p) self else double p)
              (if c then add (double q) self else double q)
      chosen true = add-IsScaled self (double-IsScaled h)
      chosen false = double-IsScaled h

  pub rounds_from-IsScaled :
      (self : EdwardsPoint) (bit : ℕ → Bool) (n : ℕ) {p q : EdwardsPoint}
      → IsScaled p q
      → IsScaled (rounds_from self bit n p) (rounds_from self bit n q)
  unfolding rounds_from
  rounds_from-IsScaled self bit zero h = h
  rounds_from-IsScaled self bit (suc n) h =
      rounds_from-IsScaled self bit n (round-IsScaled self (bit n) h)

  -- The double of the identity is the identity times minus one.
  pub double-identity : IsScaled identity (double identity)
  unfolding double identity
  double-identity = record {
    factor = field_ring.neg field_ring.one_elem;
    inverse = field_ring.neg field_ring.one_elem;
    unit = solve [] (minus one_term :* minus one_term) one_term refl;
    x_scaled =
        solve (edwards_a ∷ two ∷ []) (cross :* difference (var 1)) (minus one_term :* zero_term)
          refl;
    y_scaled = solve (edwards_a ∷ []) (sum :* twisted) (minus one_term :* one_term) refl;
    z_scaled =
        ap (λ t. (t_sum ⊖ t ⊗ Field.square field_ring.one_elem) ⊗ t_sum) two_lem
        ∙ solve (edwards_a ∷ []) (difference (one_term :+ one_term) :* sum)
            (minus one_term :* one_term) refl;
    t_scaled = solve (edwards_a ∷ []) (cross :* twisted) (minus one_term :* zero_term) refl;
  }
    where
      cross : Term
      cross = squared (zero_term :+ one_term) :- squared zero_term :- squared one_term

      sum : Term
      sum = var 0 :* squared zero_term :+ squared one_term

      difference : Term → Term
      difference two = sum :- two :* squared one_term

      twisted : Term
      twisted = var 0 :* squared zero_term :- squared one_term

      t_sum : FieldElement
      t_sum = edwards_a ⊗ Field.square field_ring.zero_elem ⊕ Field.square field_ring.one_elem
