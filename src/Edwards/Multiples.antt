-- ===== src/Edwards/Multiples.antt =====
-- edwards.rs: the 301 fixed rounds against the textbook binary multiple.
use native.Mathlib.Nat.{pow-suc, div-div-eq-div-mul, div-eq_of_lt}
use ed301_eddsa.Base.{
  ℕ, zero, suc, ◌+◌, ◌-◌, ◌*◌, ◌/◌, ◌%◌, ◌^◌, ◌≤◌, ◌<◌, arith, ◌==◌, Bool, false,
}
use ed301_eddsa.Base.{◌≡◌, refl, sym, ap, ◌∙◌, if◌then◌else◌}
use ed301_eddsa.Parameters.{field_bits}
use ed301_eddsa.Libraries.Bigint.{Bigint}
use ed301_eddsa.Scalar
use ed301_eddsa.Scalar.Arith.{bit_lem}
use ed301_eddsa.Edwards.{
  EdwardsPoint, identity, add, double, rounds_from, scalar_mul, scalar_mul_with,
}
use ed301_eddsa.Edwards.OnCurve.{select_lem}
use ed301_eddsa.Edwards.Scaled.{IsScaled, same-IsScaled, chain-IsScaled}
use ed301_eddsa.Edwards.Rounds.{double-identity, rounds_from-IsScaled, round}

bits : ℕ → ℕ → Bool
bits s i = s / 2 ^ i % 2 == 1

bits-half : (s i : ℕ) → bits s (suc i) ≡ bits (s / 2) i
unfolding bits
bits-half s i =
    ap (λ t. t % 2 == 1)
      (ap (λ t. s / t) {x = 2 ^ suc i} {y = 2 * 2 ^ i} (omega (arith, pow-suc 2 i))
        ∙ sym (div-div-eq-div-mul s 2 (2 ^ i)))

bits-top : (s n : ℕ) → s < 2 ^ n → bits s n ≡ false
unfolding bits
bits-top s n h = ap (λ t. t % 2 == 1) (div-eq_of_lt h)

module _ ⦃b : Bigint⦄ where
  -- The multiple of a point by a number of at most so many bits: twice the multiple by the half,
  -- and the point once more where the number is odd.
  unfoldable pub multiple : ℕ → EdwardsPoint → ℕ → EdwardsPoint
  multiple zero p s = identity
  multiple (suc n) p s =
      let half = multiple n p (s / 2) in if s % 2 == 1 then add (double half) p else double half

  -- The last round of a run is the round of bit 0.
  rounds_last :
      (p : EdwardsPoint) (f : ℕ → Bool) (n : ℕ) (q : EdwardsPoint)
      → rounds_from p f (suc n) q ≡ round p (f 0) (rounds_from p (λ i. f (suc i)) n q)
  unfolding rounds_from
  rounds_last p f zero q = refl
  rounds_last p f (suc n) q = rounds_last p f n (round p (f (suc n)) q)

  rounds_agree :
      (p : EdwardsPoint) (f g : ℕ → Bool) (n : ℕ) (q : EdwardsPoint)
      → ((i : ℕ) → f i ≡ g i)
      → rounds_from p f n q ≡ rounds_from p g n q
  unfolding rounds_from
  rounds_agree p f g zero q h = refl
  rounds_agree p f g (suc n) q h =
      ap (λ c. rounds_from p f n (round p c q)) (h n) ∙ rounds_agree p f g n _ h

  rounds-multiple :
      (p : EdwardsPoint) (n s : ℕ) → rounds_from p (bits s) n identity ≡ multiple n p s
  unfolding rounds_from multiple bits
  rounds-multiple p zero s = refl
  rounds-multiple p (suc n) s =
      rounds_last p (bits s) n identity
      ∙ ap (round p (bits s 0)) (
          rounds_agree p (λ i. bits s (suc i)) (bits (s / 2)) n identity (bits-half s)
          ∙ rounds-multiple p n (s / 2))
      ∙ select_lem (double half) (add (double half) p) (bits s 0)
      ∙ ap (λ t. if t % 2 == 1 then add (double half) p else double half) {x = s / 1} {y = s}
          (omega arith)
    where
      half : EdwardsPoint
      half = multiple n p (s / 2)

  -- One more round above the top bit only scales the result.
  multiple-more :
      (p : EdwardsPoint) (n s : ℕ) → s < 2 ^ n → IsScaled (multiple n p s) (multiple (suc n) p s)
  unfolding rounds_from
  multiple-more p n s h =
      rw
        (
          ← rounds-multiple p n s,
          ← rounds-multiple p (suc n) s,
          bits-top s n h,
          select_lem (double identity) (add (double identity) p) false,
        )
        (rounds_from-IsScaled p (bits s) n double-identity)

  multiple-upto :
      (p : EdwardsPoint) (k n m s : ℕ)
      → k + n ≡ m
      → s < 2 ^ n
      → IsScaled (multiple n p s) (multiple m p s)
  multiple-upto p zero n m s e h = at_end m (omega arith)
    where
      at_end : (m : ℕ) → n ≡ m → IsScaled (multiple n p s) (multiple m p s)
      at_end m e = rw (← e) (same-IsScaled (multiple n p s))
  multiple-upto p (suc k) n m s e h =
      chain-IsScaled (multiple-more p n s h)
        (multiple-upto p k (suc n) m s (omega arith) (omega (arith, pow-suc 2 n)))

  -- For a scalar below 2^n with n at most 301, the fixed 301 rounds give the binary double-and-add
  -- multiple by n bits, all four coordinates times one invertible factor.
  pub scalar_mul-multiple :
      (p : EdwardsPoint) (n s : ℕ)
      → n ≤ field_bits
      → s < 2 ^ n
      → IsScaled (multiple n p s) (scalar_mul p s)
  unfolding scalar_mul scalar_mul_with bits
  scalar_mul-multiple p n s h k =
      rw
        (
          rounds_agree p (λ i. Scalar.bit s i) (bits s) field_bits identity (bit_lem s),
          rounds-multiple p field_bits s,
        )
        (multiple-upto p (field_bits - n) n field_bits s (omega arith) k)
