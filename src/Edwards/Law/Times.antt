-- ===== src/Edwards/Law/Times.antt =====
-- edwards.rs: multiples in the affine group of the curve.
use ed301_eddsa.Base.{ℕ, zero, suc, ◌+◌, ◌*◌, arith, ◌≡◌, refl, sym, ap, ◌∙◌}
use ed301_eddsa.Libraries.Bigint.{Bigint}
use ed301_eddsa.Edwards.Affine.{Affine}
use ed301_eddsa.Edwards.Law.{
  OnAffine, sum, neutral, sum-OnAffine, neutral-OnAffine, sum_comm, sum-neutral,
}
use ed301_eddsa.Edwards.Law.Associative.{sum_assoc}

module _ ⦃b : Bigint⦄ where
  -- The n-fold sum.
  unfoldable pub times : ℕ → Affine → Affine
  times zero p = neutral
  times (suc n) p = sum (times n p) p

  pub times-zero : (p : Affine) → times 0 p ≡ neutral
  unfolding times
  times-zero p = refl

  pub times-suc : (n : ℕ) (p : Affine) → times (suc n) p ≡ sum (times n p) p
  unfolding times
  times-suc n p = refl

  pub neutral-sum : (p : Affine) → OnAffine p → sum neutral p ≡ p
  neutral-sum p h = sum_comm neutral p ∙ sum-neutral p h

  pub times-OnAffine : (n : ℕ) (p : Affine) → OnAffine p → OnAffine (times n p)
  unfolding times
  times-OnAffine zero p h = neutral-OnAffine
  times-OnAffine (suc n) p h = sum-OnAffine _ p (times-OnAffine n p h) h

  pub times-add :
      (m n : ℕ) (p : Affine) → OnAffine p → times (m + n) p ≡ sum (times m p) (times n p)
  unfolding times
  times-add m zero p h =
      ap (λ k. times k p) {x = m + zero} {y = m} (omega arith)
      ∙ sym (sum-neutral _ (times-OnAffine m p h))
  times-add m (suc n) p h =
      ap (λ k. times k p) {x = m + suc n} {y = suc (m + n)} (omega arith)
      ∙ ap (λ t. sum t p) (times-add m n p h)
      ∙ sum_assoc (times m p) (times n p) p (times-OnAffine m p h) (times-OnAffine n p h) h

  pub times-neutral : (n : ℕ) → times n neutral ≡ neutral
  unfolding times
  times-neutral zero = refl
  times-neutral (suc n) =
      ap (λ t. sum t neutral) (times-neutral n) ∙ sum-neutral neutral neutral-OnAffine

  pub times-one : (p : Affine) → OnAffine p → times 1 p ≡ p
  unfolding times
  times-one p h = neutral-sum p h

  pub times-mul : (m n : ℕ) (p : Affine) → OnAffine p → times (m * n) p ≡ times m (times n p)
  unfolding times
  times-mul zero n p h = ap (λ k. times k p) {x = zero * n} {y = 0} (omega arith)
  times-mul (suc m) n p h =
      ap (λ k. times k p) {x = suc m * n} {y = m * n + n} (omega arith)
      ∙ times-add (m * n) n p h
      ∙ ap (λ t. sum t (times n p)) (times-mul m n p h)

  interchange :
      (p q r s : Affine)
      → OnAffine p
      → OnAffine q
      → OnAffine r
      → OnAffine s
      → sum (sum p q) (sum r s) ≡ sum (sum p r) (sum q s)
  interchange p q r s hp hq hr hs =
      sum_assoc p q (sum r s) hp hq (sum-OnAffine r s hr hs)
      ∙ ap (sum p) (
          sym (sum_assoc q r s hq hr hs)
          ∙ ap (λ t. sum t s) (sum_comm q r)
          ∙ sum_assoc r q s hr hq hs)
      ∙ sym (sum_assoc p r (sum q s) hp hr (sum-OnAffine q s hq hs))

  pub times-sum :
      (n : ℕ) (p q : Affine)
      → OnAffine p
      → OnAffine q
      → times n (sum p q) ≡ sum (times n p) (times n q)
  unfolding times
  times-sum zero p q h k = sym (sum-neutral neutral neutral-OnAffine)
  times-sum (suc n) p q h k =
      ap (λ t. sum t (sum p q)) (times-sum n p q h k)
      ∙ interchange (times n p) (times n q) p q (times-OnAffine n p h) (times-OnAffine n q k) h k
