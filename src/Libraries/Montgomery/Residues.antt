-- ===== src/Libraries/Montgomery/Residues.antt =====
-- The integers modulo `m` behind a Montgomery form, as a ring.
use native.Mathlib.Nat.{add-mod, add-mod-mod, add-mod_left}
use native.Mathlib.Nat.{mod-eq_of_lt}
use ed301_eddsa.Base.{ℕ, ◌+◌, ◌-◌, ◌*◌, ◌%◌, ◌<◌, arith}
use ed301_eddsa.Base.{◌≡◌, sym, ap, ap₂, ◌∙◌, ◌≡⟨◌⟩◌, ◌∎}
use ed301_eddsa.Ring.{CommRing}
use ed301_eddsa.Numbers.Powers.{mul-mod}
use ed301_eddsa.Libraries.Montgomery.{MontyArith}

module _ {m : ℕ} (f : MontyArith m) where
  open f use {Elem, new, retrieve, zero_elem, one_elem, add, sub, mul, neg, square}

  pub ext : (a b : Elem) → retrieve a ≡ retrieve b → a ≡ b
  ext a b h = sym (f.new-retrieve a) ∙ ap new h ∙ f.new-retrieve b

  pub new_congr : (x y : ℕ) → x % m ≡ y % m → new x ≡ new y
  new_congr x y h = ext (new x) (new y) (f.retrieve-new x ∙ h ∙ sym (f.retrieve-new y))

  pub new-add : (x y : ℕ) → add (new x) (new y) ≡ new (x + y)
  new-add x y = ext _ _ (
      retrieve (add (new x) (new y))
      ≡⟨ f.retrieve-add (new x) (new y) ⟩ (retrieve (new x) + retrieve (new y)) % m
      ≡⟨ ap₂ (λ s t. (s + t) % m) (f.retrieve-new x) (f.retrieve-new y) ⟩ (x % m + y % m) % m
      ≡⟨ sym (add-mod x y m) ∙ sym (f.retrieve-new (x + y)) ⟩ retrieve (new (x + y)) ∎)

  pub new-mul : (x y : ℕ) → mul (new x) (new y) ≡ new (x * y)
  new-mul x y = ext _ _ (
      retrieve (mul (new x) (new y))
      ≡⟨ f.retrieve-mul (new x) (new y) ⟩ (retrieve (new x) * retrieve (new y)) % m
      ≡⟨ ap₂ (λ s t. (s * t) % m) (f.retrieve-new x) (f.retrieve-new y) ⟩ (x % m) * (y % m) % m
      ≡⟨ mul-mod x y m ∙ sym (f.retrieve-new (x * y)) ⟩ retrieve (new (x * y)) ∎)

  pub zero-new : zero_elem ≡ new 0
  zero-new = ext _ _ (f.retrieve-zero ∙ sym (f.retrieve-new 0))

  pub one-new : one_elem ≡ new 1
  one-new = ext _ _ (f.retrieve-one ∙ sym (f.retrieve-new 1))

  -- To prove an equation of elements, prove it of elements that are given by numbers.
  pub by_numbers : (P : Elem → Type 0) → ((x : ℕ) → x < m → P (new x)) → (a : Elem) → P a
  by_numbers P h a = rw (f.new-retrieve a) at (h (retrieve a) (f.retrieve-lt a))

  pub neg-new : (x : ℕ) → x < m → neg (new x) ≡ new (m - x)
  neg-new x h = ext _ _ (
      f.retrieve-neg (new x)
      ∙ ap (λ t. (m - t) % m) (f.retrieve-new x ∙ mod-eq_of_lt h)
      ∙ sym (f.retrieve-new (m - x)))

  pub neg-add_lem : (a : Elem) → add (neg a) a ≡ zero_elem
  neg-add_lem =
      by_numbers (λ a. add (neg a) a ≡ zero_elem)
        λ x h.
          ap (λ t. add t (new x)) (neg-new x h)
          ∙ new-add (m - x) x
          ∙ new_congr (m - x + x) 0 (ap (λ t. t % m) (wraps x h) ∙ add-mod_left m 0)
          ∙ sym zero-new
    where
      wraps : (x : ℕ) → x < m → m - x + x ≡ m + 0
      wraps x h = omega arith

  pub sub_neg : (a b : Elem) → sub a b ≡ add a (neg b)
  sub_neg a b = ext _ _ (
      f.retrieve-sub a b
      ∙ sym (add-mod-mod (retrieve a) (m - retrieve b) m)
      ∙ ap (λ t. (retrieve a + t) % m) (sym (f.retrieve-neg b))
      ∙ sym (f.retrieve-add a (neg b)))

  pub square_mul : (a : Elem) → square a ≡ mul a a
  square_mul a = ext _ _ (f.retrieve-square a ∙ sym (f.retrieve-mul a a))

  pub add_comm_lem : (a b : Elem) → add a b ≡ add b a
  add_comm_lem a b = ext _ _ (
      f.retrieve-add a b
      ∙ ap (λ t. t % m) {x = retrieve a + retrieve b} {y = retrieve b + retrieve a} (omega arith)
      ∙ sym (f.retrieve-add b a))

  pub mul_comm_lem : (a b : Elem) → mul a b ≡ mul b a
  mul_comm_lem a b = ext _ _ (
      f.retrieve-mul a b
      ∙ ap (λ t. t % m) {x = retrieve a * retrieve b} {y = retrieve b * retrieve a} (omega arith)
      ∙ sym (f.retrieve-mul b a))

  by_three :
      (P : Elem → Elem → Elem → Type 0)
      → ((x y z : ℕ) → P (new x) (new y) (new z))
      → (a b c : Elem) → P a b c
  by_three P h a b c =
      by_numbers (λ a. P a b c)
        (λ x _.
          by_numbers (λ b. P (new x) b c)
            (λ y _. by_numbers (λ c. P (new x) (new y) c) (λ z _. h x y z) c) b)
        a

  pub add_assoc_lem : (a b c : Elem) → add (add a b) c ≡ add a (add b c)
  add_assoc_lem =
      by_three (λ a b c. add (add a b) c ≡ add a (add b c))
        λ x y z.
          ap (λ t. add t (new z)) (new-add x y)
          ∙ new-add (x + y) z
          ∙ ap new {x = x + y + z} {y = x + (y + z)} (omega arith)
          ∙ sym (ap (add (new x)) (new-add y z) ∙ new-add x (y + z))

  pub mul_assoc_lem : (a b c : Elem) → mul (mul a b) c ≡ mul a (mul b c)
  mul_assoc_lem =
      by_three (λ a b c. mul (mul a b) c ≡ mul a (mul b c))
        λ x y z.
          ap (λ t. mul t (new z)) (new-mul x y)
          ∙ new-mul (x * y) z
          ∙ ap new {x = x * y * z} {y = x * (y * z)} (omega arith)
          ∙ sym (ap (mul (new x)) (new-mul y z) ∙ new-mul x (y * z))

  pub mul-add_lem : (a b c : Elem) → mul a (add b c) ≡ add (mul a b) (mul a c)
  mul-add_lem =
      by_three (λ a b c. mul a (add b c) ≡ add (mul a b) (mul a c))
        λ x y z.
          ap (mul (new x)) (new-add y z)
          ∙ new-mul x (y + z)
          ∙ ap new {x = x * (y + z)} {y = x * y + x * z} (omega arith)
          ∙ sym (ap₂ add (new-mul x y) (new-mul x z) ∙ new-add (x * y) (x * z))

  pub zero-add_lem : (a : Elem) → add zero_elem a ≡ a
  zero-add_lem =
      by_numbers (λ a. add zero_elem a ≡ a)
        λ x _.
          ap (λ t. add t (new x)) zero-new ∙ new-add 0 x ∙ ap new {x = 0 + x} {y = x} (omega arith)

  pub one-mul_lem : (a : Elem) → mul one_elem a ≡ a
  one-mul_lem =
      by_numbers (λ a. mul one_elem a ≡ a)
        λ x _.
          ap (λ t. mul t (new x)) one-new ∙ new-mul 1 x ∙ ap new {x = 1 * x} {y = x} (omega arith)

  abbrev pub ring : CommRing Elem
  ring = record {
    zero_elem = zero_elem;
    one_elem = one_elem;
    add = add;
    mul = mul;
    neg = neg;
    sub = sub;
    square = square;
    add_assoc = add_assoc_lem;
    add_comm = add_comm_lem;
    zero-add = zero-add_lem;
    neg-add = neg-add_lem;
    mul_assoc = mul_assoc_lem;
    mul_comm = mul_comm_lem;
    one-mul = one-mul_lem;
    mul-add = mul-add_lem;
    sub_lem = sub_neg;
    square_lem = square_mul;
  }
