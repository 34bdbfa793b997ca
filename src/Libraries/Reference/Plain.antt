-- ===== src/Libraries/Reference/Plain.antt =====
-- The residues modulo `m`, each a number with the proof that it is below `m`.
use native.Mathlib.Nat.{mod-lt, mod-eq_of_lt}
use native.Mathlib.Bridge.{le_prop}
use mathlib.Core.HLevel.{Σ_prop_path}
use ed301_eddsa.Base.{ℕ, ◌+◌, ◌-◌, ◌*◌, ◌%◌, ◌<◌, ◌≡◌, refl}
use ed301_eddsa.Libraries.Montgomery.{MontyArith}

module _ (m : ℕ) (pos : 0 < m) where
  abbrev pub Residue : Type 0
  Residue = (x : ℕ) × (x < m)

  abbrev pub reduce : ℕ → Residue
  reduce x = (x % m, mod-lt x pos)

  pub Residue_ext : (a b : Residue) → a.0 ≡ b.0 → a ≡ b
  Residue_ext a b e = Σ_prop_path (λ n. le_prop) e

  abbrev pub residues : MontyArith m
  residues = record {
    Elem = Residue;
    new = reduce;
    retrieve = λ a. a.0;
    zero_elem = reduce 0;
    one_elem = reduce 1;
    add = λ a b. reduce (a.0 + b.0);
    sub = λ a b. reduce (a.0 + (m - b.0));
    mul = λ a b. reduce (a.0 * b.0);
    neg = λ a. reduce (m - a.0);
    square = λ a. reduce (a.0 * a.0);
    retrieve-lt = λ a. a.1;
    retrieve-new = λ x. refl;
    new-retrieve = λ a. Residue_ext (reduce a.0) a (mod-eq_of_lt a.1);
    retrieve-zero = refl;
    retrieve-one = refl;
    retrieve-add = λ a b. refl;
    retrieve-sub = λ a b. refl;
    retrieve-mul = λ a b. refl;
    retrieve-neg = λ a. refl;
    retrieve-square = λ a. refl;
  }
