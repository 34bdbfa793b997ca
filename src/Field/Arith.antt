-- ===== src/Field/Arith.antt =====
-- field.rs: the ring operations, inverses, square roots, comparison and selection.
use ed301_eddsa.Base.{◌≡◌, ◌≢◌, ◌↔◌, refl, sym, ap, ◌∙◌, Bool, true, false, Option, none, some}
use ed301_eddsa.Base.{ct_option-some, if◌then◌else◌}
use ed301_eddsa.Libraries.Bigint.{Bigint}
use ed301_eddsa.Libraries.Montgomery.Residues.{ring, one-new, new-add}
use ed301_eddsa.Ring.{CommRing}
use ed301_eddsa.Field.{
  FieldElement, zero_element, one_element, from_u64, add, sub, neg, mul, square, invert, ct_eq,
  sqrt, is_zero, conditional_swap, conditional_select,
}

module _ ⦃b : Bigint⦄ where
  abbrev laws : CommRing FieldElement
  laws = ring b.field_form.base

  pub field_add_assoc : (x y z : FieldElement) → add (add x y) z ≡ add x (add y z)
  unfolding add
  field_add_assoc = laws.add_assoc

  pub field_add_comm : (x y : FieldElement) → add x y ≡ add y x
  unfolding add
  field_add_comm = laws.add_comm

  pub field_zero-add : (x : FieldElement) → add zero_element x ≡ x
  unfolding add zero_element
  field_zero-add = laws.zero-add

  pub field_neg-add : (x : FieldElement) → add (neg x) x ≡ zero_element
  unfolding add neg zero_element
  field_neg-add = laws.neg-add

  pub field_mul_assoc : (x y z : FieldElement) → mul (mul x y) z ≡ mul x (mul y z)
  unfolding mul
  field_mul_assoc = laws.mul_assoc

  pub field_mul_comm : (x y : FieldElement) → mul x y ≡ mul y x
  unfolding mul
  field_mul_comm = laws.mul_comm

  pub field_one-mul : (x : FieldElement) → mul one_element x ≡ x
  unfolding mul one_element
  field_one-mul = laws.one-mul

  pub field_mul-add : (x y z : FieldElement) → mul x (add y z) ≡ add (mul x y) (mul x z)
  unfolding mul add
  field_mul-add = laws.mul-add

  pub field_sub_lem : (x y : FieldElement) → sub x y ≡ add x (neg y)
  unfolding sub add neg
  field_sub_lem = laws.sub_lem

  pub field_square_lem : (x : FieldElement) → square x ≡ mul x x
  unfolding square mul
  field_square_lem = laws.square_lem

  -- The field's operations as a ring; they stay shut in it.
  instance abbrev pub field_ring : CommRing FieldElement
  field_ring = record {
    zero_elem = zero_element;
    one_elem = one_element;
    add = add;
    mul = mul;
    neg = neg;
    sub = sub;
    square = square;
    add_assoc = field_add_assoc;
    add_comm = field_add_comm;
    zero-add = field_zero-add;
    neg-add = field_neg-add;
    mul_assoc = field_mul_assoc;
    mul_comm = field_mul_comm;
    one-mul = field_one-mul;
    mul-add = field_mul-add;
    sub_lem = field_sub_lem;
    square_lem = field_square_lem;
  }

  pub ct_eq_lem : (x y : FieldElement) → (ct_eq x y ≡ true) ↔ (x ≡ y)
  unfolding ct_eq
  ct_eq_lem = b.field_form.ct_eq_iff

  pub ct_eq_self : (x : FieldElement) → ct_eq x x ≡ true
  ct_eq_self x = (ct_eq_lem x x).1 refl

  pub is_zero_lem : (x : FieldElement) → (is_zero x ≡ true) ↔ (x ≡ zero_element)
  unfolding is_zero
  is_zero_lem x = ct_eq_lem x zero_element

  -- An inverse is one, and is missing only where there is none.
  pub invert-inverse :
      (x : FieldElement)
      → ((y : FieldElement) → invert x ≡ some y → mul x y ≡ one_element)
        × ((y : FieldElement) → invert x ≡ none → mul x y ≢ one_element)
  unfolding invert mul one_element
  invert-inverse x = (b.field_form.invert-some x, b.field_form.invert-none x)

  -- Where a square root is returned, its square is the argument of the call.
  pub sqrt-square : (x r : FieldElement) → sqrt x ≡ some r → square r ≡ x
  unfolding sqrt
  sqrt-square x r h =
      let (found, e) = ct_option-some _ _ h in ap square (sym e) ∙ (ct_eq_lem _ _).0 found

  pub conditional_select_lem :
      (x y : FieldElement) (c : Bool) → conditional_select x y c ≡ (if c then y else x)
  unfolding conditional_select
  conditional_select_lem x y true = b.field_form.ct_assign-true x y
  conditional_select_lem x y false = b.field_form.ct_assign-false x y

  pub conditional_swap_lem :
      (x y : FieldElement) (c : Bool) → conditional_swap x y c ≡ (if c then (y, x) else (x, y))
  unfolding conditional_swap
  conditional_swap_lem x y true =
      λ i. (b.field_form.ct_assign-true x y i, b.field_form.ct_assign-true y x i)
  conditional_swap_lem x y false =
      λ i. (b.field_form.ct_assign-false x y i, b.field_form.ct_assign-false y x i)

  pub two-eq : from_u64 2 ≡ add one_element one_element
  unfolding from_u64 add one_element
  two-eq =
      sym
        (ap (λ t. b.field_form.add t t) (one-new b.field_form.base) ∙ new-add b.field_form.base 1 1)

  -- An element is returned as the inverse exactly if its product with the argument is one.
  pub invert_iff : (x y : FieldElement) → (invert x ≡ some y) ↔ (mul x y ≡ one_element)
  invert_iff x y = ((invert-inverse x).0 y, λ e. by_result (invert x) refl e)
    where
      by_result :
          (r : Option FieldElement) → invert x ≡ r → mul x y ≡ one_element → invert x ≡ some y
      by_result none k e = absurd ((invert-inverse x).1 y k e)
      by_result (some w) k e =
          k
          ∙ ap some (
              sym (field_one-mul w)
              ∙ ap (λ t. mul t w) (sym e)
              ∙ ap (λ t. mul t w) (field_mul_comm x y)
              ∙ field_mul_assoc y x w
              ∙ ap (mul y) ((invert-inverse x).0 w k)
              ∙ field_mul_comm y one_element
              ∙ field_one-mul y)
