-- ===== src/Ring/Laws.antt =====
-- Consequences of the ring laws.
use ed301_eddsa.Base.{◌≡◌, sym, ap, ap₂, ◌∙◌, ◌≡⟨◌⟩◌, ◌∎}
use ed301_eddsa.Ring.{CommRing, ◌⊕◌, ◌⊗◌}

module _ {A : Type 0} ⦃r : CommRing A⦄ where
  pub add-zero : (a : A) → a ⊕ r.zero_elem ≡ a
  add-zero a = r.add_comm a r.zero_elem ∙ r.zero-add a

  pub mul-one : (a : A) → a ⊗ r.one_elem ≡ a
  mul-one a = r.mul_comm a r.one_elem ∙ r.one-mul a

  pub add-mul : (a b c : A) → (a ⊕ b) ⊗ c ≡ a ⊗ c ⊕ b ⊗ c
  add-mul a b c = r.mul_comm (a ⊕ b) c ∙ r.mul-add c a b ∙ ap₂ ◌⊕◌ (r.mul_comm c a) (r.mul_comm c b)

  pub add_left_cancel : (a b c : A) → a ⊕ b ≡ a ⊕ c → b ≡ c
  add_left_cancel a b c h =
      b
      ≡⟨ sym (undo b) ⟩ r.neg a ⊕ (a ⊕ b)
      ≡⟨ ap (◌⊕◌ (r.neg a)) h ⟩ r.neg a ⊕ (a ⊕ c)
      ≡⟨ undo c ⟩ c ∎
    where
      undo : (x : A) → r.neg a ⊕ (a ⊕ x) ≡ x
      undo x = sym (r.add_assoc (r.neg a) a x) ∙ ap (λ t. t ⊕ x) (r.neg-add a) ∙ r.zero-add x

  pub add_right_cancel : (a b c : A) → a ⊕ c ≡ b ⊕ c → a ≡ b
  add_right_cancel a b c h = add_left_cancel c a b (r.add_comm c a ∙ h ∙ r.add_comm b c)

  pub mul-zero : (a : A) → a ⊗ r.zero_elem ≡ r.zero_elem
  mul-zero a = add_left_cancel (a ⊗ r.zero_elem) (a ⊗ r.zero_elem) r.zero_elem (
      sym (r.mul-add a r.zero_elem r.zero_elem)
      ∙ ap (◌⊗◌ a) (r.zero-add r.zero_elem)
      ∙ sym (add-zero (a ⊗ r.zero_elem)))

  pub zero-mul : (a : A) → r.zero_elem ⊗ a ≡ r.zero_elem
  zero-mul a = r.mul_comm r.zero_elem a ∙ mul-zero a

  pub add_left_comm : (a b c : A) → a ⊕ (b ⊕ c) ≡ b ⊕ (a ⊕ c)
  add_left_comm a b c =
      sym (r.add_assoc a b c) ∙ ap (λ t. t ⊕ c) (r.add_comm a b) ∙ r.add_assoc b a c

  pub add_interchange : (a b c d : A) → (a ⊕ b) ⊕ (c ⊕ d) ≡ (a ⊕ c) ⊕ (b ⊕ d)
  add_interchange a b c d =
      r.add_assoc a b (c ⊕ d) ∙ ap (◌⊕◌ a) (add_left_comm b c d) ∙ sym (r.add_assoc a c (b ⊕ d))

  pub mul_left_comm : (a b c : A) → a ⊗ (b ⊗ c) ≡ b ⊗ (a ⊗ c)
  mul_left_comm a b c =
      sym (r.mul_assoc a b c) ∙ ap (λ t. t ⊗ c) (r.mul_comm a b) ∙ r.mul_assoc b a c

  pub mul_interchange : (a b c d : A) → (a ⊗ b) ⊗ (c ⊗ d) ≡ (a ⊗ c) ⊗ (b ⊗ d)
  mul_interchange a b c d =
      r.mul_assoc a b (c ⊗ d) ∙ ap (◌⊗◌ a) (mul_left_comm b c d) ∙ sym (r.mul_assoc a c (b ⊗ d))
