-- ===== src/Ring/Solver.antt =====
-- Equations of a commutative ring by normal forms: a term is a difference of two polynomials with
-- natural coefficients, and two terms are equal in every ring if their normal forms agree.
pub mod Polynomials
pub mod Values
use ed301_eddsa.Base.{◌≡◌, refl, sym, ap, ap₂, ◌∙◌, ◌≡⟨◌⟩◌, ◌∎, List}
use ed301_eddsa.Ring.{CommRing, ◌⊕◌, ◌⊗◌, ◌⊖◌}
use ed301_eddsa.Ring.Terms.{Term, value}
use ed301_eddsa.Ring.Laws.{add_right_cancel, add_interchange}
use Polynomials.{Poly, Difference, insert, add, normal}
use Values.{poly_value, normal-value, add-value, at_list}

module _ {A : Type 0} ⦃r : CommRing A⦄ where
  crossed : (x y p q m n : A) → x ⊕ m ≡ p → y ⊕ n ≡ q → p ⊕ n ≡ q ⊕ m → x ≡ y
  crossed x y p q m n hx hy e = add_right_cancel x y (m ⊕ n) (
      x ⊕ (m ⊕ n)
      ≡⟨ sym (r.add_assoc x m n) ⟩ x ⊕ m ⊕ n
      ≡⟨ ap (λ t. t ⊕ n) hx ⟩ p ⊕ n
      ≡⟨ e ⟩ q ⊕ m
      ≡⟨ ap (λ t. t ⊕ m) (sym hy) ⟩ y ⊕ n ⊕ m
      ≡⟨ r.add_assoc y n m ⟩ y ⊕ (n ⊕ m)
      ≡⟨ ap (◌⊕◌ y) (r.add_comm n m) ⟩ y ⊕ (m ⊕ n) ∎)

  -- The premise is `refl` where the two terms are equal as polynomials.
  pub solve :
      (ρ : List A) (s t : Term)
      → add (normal s).pos (normal t).neg ≡ add (normal t).pos (normal s).neg
      → value ρ s ≡ value ρ t
  solve ρ s t same = crossed _ _ _ _ _ _ (normal-value ρ s) (normal-value ρ t) (
      sym (add-value ρ (normal s).pos (normal t).neg)
      ∙ ap (poly_value (at_list ρ)) same
      ∙ add-value ρ (normal t).pos (normal s).neg)
