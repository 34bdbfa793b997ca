-- ===== src/Ring/Solver/Values.antt =====
-- The value of a polynomial in a ring, and that the normal form of a term has the term's value.
use Prim.Native.Nat.{compare, Ordering}
use Prim.Native.Nat.add
use ed301_eddsa.Base.{ℕ, zero, suc, ◌+◌, ◌*◌, List, [], ◌∷◌, get_or, arith}
use ed301_eddsa.Base.{◌≡◌, refl, sym, ap, ap₂, ◌∙◌, ◌≡⟨◌⟩◌, ◌∎}
use ed301_eddsa.Ring.{CommRing, ◌⊕◌, ◌⊗◌}
use ed301_eddsa.Ring.Terms.{
  Term, var, zero_term, one_term, plus, times, minus, less, squared, value,
}
use ed301_eddsa.Ring.Laws.{
  add-zero, mul-one, add-mul, mul-zero, zero-mul, add_interchange, add_left_comm, mul_interchange,
}
use ed301_eddsa.Ring.Solver.Polynomials.{
  Monomial, Poly, variable, product, then_by, order, insert, add_scaled, Difference, times_diff,
  normal,
}
use ed301_eddsa.Ring.Solver.Polynomials

order-eq : (m n : Monomial) → order m n ≡ Ordering.eq → m ≡ n
order-eq [] [] h = refl
order-eq [] (e ∷ n) h = cc
order-eq (d ∷ m) [] h = cc
order-eq (d ∷ m) (e ∷ n) h = ap₂ ◌∷◌ (heads h) (order-eq m n (tails h))
  where
    heads : then_by (compare d e) (order m n) ≡ Ordering.eq → d ≡ e
    heads k = ground arith

    tails : then_by (compare d e) (order m n) ≡ Ordering.eq → order m n ≡ Ordering.eq
    tails k = ground arith

abbrev met : ℕ → Monomial → ℕ → Monomial → Poly → Poly → Ordering → Poly
met c m d n p rest Ordering.eq = (c + d, n) ∷ p
met c m d n p rest Ordering.lt = (c, m) ∷ (d, n) ∷ p
met c m d n p rest Ordering.gt = (d, n) ∷ rest

insert-met :
    (c : ℕ) (m : Monomial) (d : ℕ) (n : Monomial) (p : Poly) (o : Ordering)
    → order m n ≡ o
    → insert c m ((d, n) ∷ p) ≡ met c m d n p (insert c m p) o
insert-met c m d n p Ordering.eq e = rw (e, insert)
insert-met c m d n p Ordering.lt e = rw (e, insert)
insert-met c m d n p Ordering.gt e = rw (e, insert)

module _ {A : Type 0} ⦃r : CommRing A⦄ where
  pub scale : ℕ → A → A
  scale zero a = r.zero_elem
  scale (suc n) a = a ⊕ scale n a

  power : A → ℕ → A
  power a zero = r.one_elem
  power a (suc n) = a ⊗ power a n

  monomial_value : (ℕ → A) → Monomial → A
  monomial_value σ [] = r.one_elem
  monomial_value σ (e ∷ m) = power (σ 0) e ⊗ monomial_value (λ i. σ (suc i)) m

  pub poly_value : (ℕ → A) → Poly → A
  poly_value σ [] = r.zero_elem
  poly_value σ ((c, m) ∷ p) = scale c (monomial_value σ m) ⊕ poly_value σ p

  abbrev pub at_list : List A → ℕ → A
  at_list ρ i = get_or ρ i r.zero_elem

  scale-add : (n k : ℕ) (a : A) → scale (n + k) a ≡ scale n a ⊕ scale k a
  unfolding scale
  scale-add zero k a = rw (add.zero k) (sym (r.zero-add _))
  scale-add (suc n) k a = rw (add.suc n k) (ap (◌⊕◌ a) (scale-add n k a) ∙ sym (r.add_assoc _ _ _))

  scale-mul_right : (k : ℕ) (a b : A) → scale k (a ⊗ b) ≡ a ⊗ scale k b
  unfolding scale
  scale-mul_right zero a b = sym (mul-zero a)
  scale-mul_right (suc k) a b =
      ap (◌⊕◌ (a ⊗ b)) (scale-mul_right k a b) ∙ sym (r.mul-add a b (scale k b))

  scale-mul : (n k : ℕ) (a b : A) → scale (n * k) (a ⊗ b) ≡ scale n a ⊗ scale k b
  unfolding scale
  scale-mul zero k a b =
      let e : zero * k ≡ zero = omega arith in
      ap (λ t. scale t (a ⊗ b)) e ∙ sym (zero-mul (scale k b))
  scale-mul (suc n) k a b =
      let e : suc n * k ≡ k + n * k = omega arith in
      ap (λ t. scale t (a ⊗ b)) e
      ∙ scale-add k (n * k) (a ⊗ b)
      ∙ ap₂ ◌⊕◌ (scale-mul_right k a b) (scale-mul n k a b)
      ∙ sym (add-mul a (scale n a) (scale k b))

  power-add : (n k : ℕ) (a : A) → power a (n + k) ≡ power a n ⊗ power a k
  unfolding power
  power-add zero k a = rw (add.zero k) (sym (r.one-mul _))
  power-add (suc n) k a = rw (add.suc n k) (ap (◌⊗◌ a) (power-add n k a) ∙ sym (r.mul_assoc _ _ _))

  variable-value : (σ : ℕ → A) (i : ℕ) → monomial_value σ (variable i) ≡ σ i
  unfolding monomial_value power
  variable-value σ zero = mul-one _ ∙ mul-one _
  variable-value σ (suc i) = r.one-mul _ ∙ variable-value (λ i. σ (suc i)) i

  product-value :
      (σ : ℕ → A) (m n : Monomial)
      → monomial_value σ (product m n) ≡ monomial_value σ m ⊗ monomial_value σ n
  unfolding monomial_value
  product-value σ [] n = sym (r.one-mul _)
  product-value σ (d ∷ m) [] = sym (mul-one _)
  product-value σ (d ∷ m) (e ∷ n) =
      ap₂ ◌⊗◌ (power-add d e (σ 0)) (product-value (λ i. σ (suc i)) m n) ∙ mul_interchange _ _ _ _

  met-value :
      (σ : ℕ → A) (c : ℕ) (m : Monomial) (d : ℕ) (n : Monomial) (p rest : Poly)
      → poly_value σ rest ≡ scale c (monomial_value σ m) ⊕ poly_value σ p
      → (o : Ordering) → order m n ≡ o
      → poly_value σ (met c m d n p rest o)
        ≡ scale c (monomial_value σ m) ⊕ (scale d (monomial_value σ n) ⊕ poly_value σ p)
  unfolding poly_value
  met-value σ c m d n p rest ih Ordering.eq e =
      ap (λ t. t ⊕ poly_value σ p) (scale-add c d (monomial_value σ n))
      ∙ r.add_assoc _ _ _
      ∙ ap (λ t. scale c (monomial_value σ t) ⊕ (scale d (monomial_value σ n) ⊕ poly_value σ p))
          (sym (order-eq m n e))
  met-value σ c m d n p rest ih Ordering.lt e = refl
  met-value σ c m d n p rest ih Ordering.gt e =
      ap (◌⊕◌ (scale d (monomial_value σ n))) ih ∙ add_left_comm _ _ _

  insert-value :
      (σ : ℕ → A) (c : ℕ) (m : Monomial) (p : Poly)
      → poly_value σ (insert c m p) ≡ scale c (monomial_value σ m) ⊕ poly_value σ p
  insert-value σ c m [] = unfold poly_value in refl
  insert-value σ c m ((d, n) ∷ p) =
      ap (poly_value σ) (insert-met c m d n p (order m n) refl)
      ∙ met-value σ c m d n p (insert c m p) (insert-value σ c m p) (order m n) refl
      ∙ unfold poly_value in refl

  add_poly-value :
      (σ : ℕ → A) (p q : Poly)
      → poly_value σ (Polynomials.add p q) ≡ poly_value σ p ⊕ poly_value σ q
  unfolding poly_value
  add_poly-value σ [] q = sym (r.zero-add _)
  add_poly-value σ ((c, m) ∷ p) q =
      insert-value σ c m (Polynomials.add p q)
      ∙ ap (◌⊕◌ (scale c (monomial_value σ m))) (add_poly-value σ p q)
      ∙ sym (r.add_assoc _ _ _)

  add_scaled-value :
      (σ : ℕ → A) (c : ℕ) (m : Monomial) (p q : Poly)
      → poly_value σ (add_scaled c m p q)
        ≡ scale c (monomial_value σ m) ⊗ poly_value σ p ⊕ poly_value σ q
  unfolding poly_value
  add_scaled-value σ c m [] q = sym (ap (λ t. t ⊕ poly_value σ q) (mul-zero _) ∙ r.zero-add _)
  add_scaled-value σ c m ((d, n) ∷ p) q =
      insert-value σ (c * d) (product m n) (add_scaled c m p q)
      ∙ ap₂ ◌⊕◌
          (ap (scale (c * d)) (product-value σ m n)
            ∙ scale-mul c d (monomial_value σ m) (monomial_value σ n))
          (add_scaled-value σ c m p q)
      ∙ sym (r.add_assoc _ _ _)
      ∙ ap (λ t. t ⊕ poly_value σ q) (sym (r.mul-add _ _ _))

  mul_poly-value :
      (σ : ℕ → A) (p q : Poly)
      → poly_value σ (Polynomials.mul p q) ≡ poly_value σ p ⊗ poly_value σ q
  unfolding poly_value
  mul_poly-value σ [] q = sym (zero-mul _)
  mul_poly-value σ ((c, m) ∷ p) q =
      add_scaled-value σ c m q (Polynomials.mul p q)
      ∙ ap (◌⊕◌ (scale c (monomial_value σ m) ⊗ poly_value σ q)) (mul_poly-value σ p q)
      ∙ sym (add-mul _ _ _)

  pub add-value :
      (ρ : List A) (p q : Poly)
      → poly_value (at_list ρ) (Polynomials.add p q)
        ≡ poly_value (at_list ρ) p ⊕ poly_value (at_list ρ) q
  add-value ρ = add_poly-value (at_list ρ)

  -- `x` is the difference of the two parts.
  abbrev Means : (ℕ → A) → A → Difference → Type 0
  Means σ x s = x ⊕ poly_value σ s.neg ≡ poly_value σ s.pos

  plus_diff-Means :
      (σ : ℕ → A) (x y : A) (s t : Difference)
      → Means σ x s
      → Means σ y t
      → Means σ (x ⊕ y) (Polynomials.plus_diff s t)
  plus_diff-Means σ x y s t h k =
      ap (◌⊕◌ (x ⊕ y)) (add_poly-value σ s.neg t.neg)
      ∙ add_interchange _ _ _ _
      ∙ ap₂ ◌⊕◌ h k
      ∙ sym (add_poly-value σ s.pos t.pos)

  minus_diff-Means :
      (σ : ℕ → A) (x : A) (s : Difference)
      → Means σ x s
      → Means σ (r.neg x) (Polynomials.minus_diff s)
  minus_diff-Means σ x s h =
      ap (◌⊕◌ (r.neg x)) (sym h)
      ∙ sym (r.add_assoc _ _ _)
      ∙ ap (λ t. t ⊕ poly_value σ s.neg) (r.neg-add x)
      ∙ r.zero-add _

  -- (x y) + (p n + m q) is p q + m n for p = x + m and q = y + n.
  cross_product :
      (x y p q m n : A) → x ⊕ m ≡ p → y ⊕ n ≡ q → x ⊗ y ⊕ (p ⊗ n ⊕ m ⊗ q) ≡ p ⊗ q ⊕ m ⊗ n
  cross_product x y p q m n h k =
      x ⊗ y ⊕ (p ⊗ n ⊕ m ⊗ q)
      ≡⟨ ap (λ t. x ⊗ y ⊕ (t ⊕ m ⊗ q)) (ap (λ t. t ⊗ n) (sym h) ∙ add-mul x m n) ⟩
        x ⊗ y ⊕ ((x ⊗ n ⊕ m ⊗ n) ⊕ m ⊗ q)
      ≡⟨ ap (◌⊕◌ (x ⊗ y)) (r.add_assoc _ _ _ ∙ ap (◌⊕◌ (x ⊗ n)) (r.add_comm _ _)) ⟩
        x ⊗ y ⊕ (x ⊗ n ⊕ (m ⊗ q ⊕ m ⊗ n))
      ≡⟨ sym (r.add_assoc _ _ _) ⟩ (x ⊗ y ⊕ x ⊗ n) ⊕ (m ⊗ q ⊕ m ⊗ n)
      ≡⟨ ap (λ t. t ⊕ (m ⊗ q ⊕ m ⊗ n)) (sym (r.mul-add x y n) ∙ ap (◌⊗◌ x) k) ⟩
        x ⊗ q ⊕ (m ⊗ q ⊕ m ⊗ n)
      ≡⟨ sym (r.add_assoc _ _ _) ⟩ (x ⊗ q ⊕ m ⊗ q) ⊕ m ⊗ n
      ≡⟨ ap (λ t. t ⊕ m ⊗ n) (sym (add-mul x m q) ∙ ap (λ t. t ⊗ q) h) ⟩ p ⊗ q ⊕ m ⊗ n ∎

  times_diff-Means :
      (σ : ℕ → A) (x y : A) (s t : Difference)
      → Means σ x s
      → Means σ y t
      → Means σ (x ⊗ y) (times_diff s t)
  times_diff-Means σ x y s t h k =
      ap (◌⊕◌ (x ⊗ y)) (
        add_poly-value σ (Polynomials.mul s.pos t.neg) (Polynomials.mul s.neg t.pos)
        ∙ ap₂ ◌⊕◌ (mul_poly-value σ s.pos t.neg) (mul_poly-value σ s.neg t.pos))
      ∙ cross_product x y _ _ _ _ h k
      ∙ sym (
          add_poly-value σ (Polynomials.mul s.pos t.pos) (Polynomials.mul s.neg t.neg)
          ∙ ap₂ ◌⊕◌ (mul_poly-value σ s.pos t.pos) (mul_poly-value σ s.neg t.neg))

  pub normal-value :
      (ρ : List A) (t : Term)
      → value ρ t ⊕ poly_value (at_list ρ) (normal t).neg ≡ poly_value (at_list ρ) (normal t).pos
  normal-value ρ (var i) =
      unfold poly_value scale in
      add-zero _ ∙ sym (add-zero _ ∙ add-zero _ ∙ variable-value (at_list ρ) i)
  normal-value ρ zero_term = unfold poly_value in add-zero _
  normal-value ρ one_term =
      unfold poly_value scale monomial_value in add-zero _ ∙ sym (add-zero _ ∙ add-zero _)
  normal-value ρ (plus s t) =
      plus_diff-Means (at_list ρ) _ _ (normal s) (normal t) (normal-value ρ s) (normal-value ρ t)
  normal-value ρ (times s t) =
      times_diff-Means (at_list ρ) _ _ (normal s) (normal t) (normal-value ρ s) (normal-value ρ t)
  normal-value ρ (minus s) = minus_diff-Means (at_list ρ) _ (normal s) (normal-value ρ s)
  normal-value ρ (less s t) =
      ap (λ x. x ⊕ poly_value (at_list ρ) (normal (less s t)).neg) (r.sub_lem _ _)
      ∙ plus_diff-Means (at_list ρ) _ _ (normal s) (Polynomials.minus_diff (normal t))
          (normal-value ρ s) (minus_diff-Means (at_list ρ) _ (normal t) (normal-value ρ t))
  normal-value ρ (squared s) =
      ap (λ x. x ⊕ poly_value (at_list ρ) (normal (squared s)).neg) (r.square_lem _)
      ∙ times_diff-Means (at_list ρ) _ _ (normal s) (normal s) (normal-value ρ s) (normal-value ρ s)
