-- ===== src/Ring/Solver/Polynomials.antt =====
-- Sorted polynomials with natural coefficients; a monomial is its list of exponents.
use Prim.Native.Nat.{compare, Ordering}
use ed301_eddsa.Base.{ℕ, zero, suc, ◌+◌, ◌*◌, List, [], ◌∷◌}
use ed301_eddsa.Ring.Terms.{Term, var, zero_term, one_term, plus, times, minus, less, squared}

abbrev pub Monomial : Type 0
Monomial = List ℕ

abbrev pub Poly : Type 0
Poly = List (ℕ × Monomial)

abbrev pub variable : ℕ → Monomial
variable zero = 1 ∷ []
variable (suc i) = 0 ∷ variable i

abbrev pub product : Monomial → Monomial → Monomial
product [] n = n
product (d ∷ m) [] = d ∷ m
product (d ∷ m) (e ∷ n) = (d + e) ∷ product m n

abbrev pub then_by : Ordering → Ordering → Ordering
then_by Ordering.eq o = o
then_by Ordering.lt o = Ordering.lt
then_by Ordering.gt o = Ordering.gt

abbrev pub order : Monomial → Monomial → Ordering
order [] [] = Ordering.eq
order [] (e ∷ n) = Ordering.lt
order (d ∷ m) [] = Ordering.gt
order (d ∷ m) (e ∷ n) = then_by (compare d e) (order m n)

abbrev pub insert : ℕ → Monomial → Poly → Poly
insert c m [] = (c, m) ∷ []
insert c m ((d, n) ∷ p) = elim (order m n) [
  | Ordering.eq ↦ (c + d, n) ∷ p
  | Ordering.lt ↦ (c, m) ∷ (d, n) ∷ p
  | Ordering.gt ↦ (d, n) ∷ insert c m p
]

abbrev pub add : Poly → Poly → Poly
add [] q = q
add ((c, m) ∷ p) q = insert c m (add p q)

abbrev pub add_scaled : ℕ → Monomial → Poly → Poly → Poly
add_scaled c m [] q = q
add_scaled c m ((d, n) ∷ p) q = insert (c * d) (product m n) (add_scaled c m p q)

abbrev pub mul : Poly → Poly → Poly
mul [] q = []
mul ((c, m) ∷ p) q = add_scaled c m q (mul p q)

pub record Difference : Type 0 where
  pub pos : Poly
  pub neg : Poly

abbrev pub plus_diff : Difference → Difference → Difference
plus_diff s t = record { pos = add s.pos t.pos; neg = add s.neg t.neg }

abbrev pub minus_diff : Difference → Difference
minus_diff s = record { pos = s.neg; neg = s.pos }

abbrev pub times_diff : Difference → Difference → Difference
times_diff s t = record {
  pos = add (mul s.pos t.pos) (mul s.neg t.neg);
  neg = add (mul s.pos t.neg) (mul s.neg t.pos);
}

abbrev pub normal : Term → Difference
normal (var i) = record { pos = (1, variable i) ∷ []; neg = [] }
normal zero_term = record { pos = []; neg = [] }
normal one_term = record { pos = (1, []) ∷ []; neg = [] }
normal (plus s t) = plus_diff (normal s) (normal t)
normal (times s t) = times_diff (normal s) (normal t)
normal (minus s) = minus_diff (normal s)
normal (less s t) = plus_diff (normal s) (minus_diff (normal t))
normal (squared s) = times_diff (normal s) (normal s)
