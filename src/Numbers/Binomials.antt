-- ===== src/Numbers/Binomials.antt =====
-- Binomial coefficients, and the expansion of a power of a sum.
use ed301_eddsa.Base.{ℕ, zero, suc, ◌+◌, ◌*◌, ◌<◌, arith, ◌≡◌, refl, sym, ap, ◌∙◌}
use ed301_eddsa.Numbers.Powers.{pow, pow-zero, pow-suc}

pub choose : ℕ → ℕ → ℕ
choose n zero = 1
choose zero (suc k) = 0
choose (suc n) (suc k) = choose n k + choose n (suc k)

pub choose-zero : (n : ℕ) → choose n 0 ≡ 1
unfolding choose
choose-zero zero = refl
choose-zero (suc n) = refl

choose-suc : (n k : ℕ) → choose (suc n) (suc k) ≡ choose n k + choose n (suc k)
unfolding choose
choose-suc n k = refl

choose-above : (n k : ℕ) → n < k → choose n k ≡ 0
unfolding choose
choose-above n zero h = absurd (omega arith)
choose-above zero (suc k) h = refl
choose-above (suc n) (suc k) h =
    omega (arith, choose-above n k (omega arith), choose-above n (suc k) (omega arith))

pub choose_self : (n : ℕ) → choose n n ≡ 1
unfolding choose
choose_self zero = refl
choose_self (suc n) = omega (arith, choose_self n, choose-above n (suc n) (omega arith))

pub absorb : (n k : ℕ) → suc k * choose (suc n) (suc k) ≡ suc n * choose n k
unfolding choose
absorb zero zero = omega arith
absorb zero (suc k) = omega arith
absorb (suc n) zero = omega (arith, absorb n 0, choose-zero n)
absorb (suc n) (suc k) = omega (arith, absorb n k, absorb n (suc k))

-- The first `j` terms of the expansion of (1 + x)^n.
pub expansion : ℕ → ℕ → ℕ → ℕ
expansion n x zero = 0
expansion n x (suc j) = expansion n x j + choose n j * pow x j

pub expansion-suc : (n x j : ℕ) → expansion n x (suc j) ≡ expansion n x j + choose n j * pow x j
unfolding expansion
expansion-suc n x j = refl

pub expansion-one : (n x : ℕ) → expansion n x 1 ≡ 1
unfolding expansion
expansion-one n x = omega (arith, pow-zero x, ap (λ (t : ℕ). t * pow x 0) (choose-zero n))

pascal : (n x j : ℕ) → expansion (suc n) x (suc j) ≡ expansion n x (suc j) + x * expansion n x j
unfolding expansion
pascal n x zero = omega (
  arith,
  ap (λ (t : ℕ). t * pow x 0) (choose-zero n),
  ap (λ (t : ℕ). t * pow x 0) (choose-zero (suc n)),
)
pascal n x (suc j) = omega (
  arith,
  pascal n x j,
  ap (λ (t : ℕ). t * pow x (suc j)) (choose-suc n j),
  ap (λ (t : ℕ). choose n j * t) (pow-suc x j),
)

-- The binomial theorem.
pub binomial : (n x : ℕ) → expansion n x (suc n) ≡ pow (suc x) n
binomial zero x = expansion-one 0 x ∙ sym (pow-zero (suc x))
binomial (suc n) x = omega (
  arith,
  pascal n x (suc n),
  expansion-suc n x (suc n),
  ap (λ (t : ℕ). t * pow x (suc n)) (choose-above n (suc n) (omega arith)),
  binomial n x,
  ap (λ (t : ℕ). x * t) (binomial n x),
  pow-suc (suc x) n,
)
