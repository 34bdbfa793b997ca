-- ===== src/Edwards/Law/Computed.antt =====
-- edwards.rs: the formulas on coordinates that are given by numbers, to compute with.
use native.Mathlib.Nat.{add-mod, mod-mod}
use ed301_eddsa.Base.{
  ℕ, zero, suc, ◌+◌, ◌-◌, ◌*◌, ◌/◌, ◌%◌, ◌==◌, ◌≡◌, sym, ap, ap₂, ◌∙◌, if◌then◌else◌, Bool-cases,
  inl, inr,
}
use ed301_eddsa.Parameters.{field_modulus}
use ed301_eddsa.Parameters
use ed301_eddsa.Libraries.Bigint.{Bigint}
use ed301_eddsa.Libraries.Montgomery.Residues.{ext, new-add, new-mul, new_congr, zero-new, one-new}
use ed301_eddsa.Field
use ed301_eddsa.Field.{FieldElement}
use ed301_eddsa.Field.Arith.{field_square_lem}
use ed301_eddsa.Edwards.{EdwardsPoint, edwards_a, edwards_d, two, identity, add, double}
use ed301_eddsa.Edwards.Multiples.{multiple}

-- Extended coordinates as numbers.
pub record Coordinates : Type 0 where
  pub x : ℕ
  pub y : ℕ
  pub z : ℕ
  pub t : ℕ

abbrev plus : ℕ → ℕ → ℕ
plus x y = (x + y) % field_modulus

abbrev less : ℕ → ℕ → ℕ
less x y = (x + (field_modulus - y % field_modulus)) % field_modulus

abbrev times : ℕ → ℕ → ℕ
times x y = x * y % field_modulus

added : Coordinates → Coordinates → Coordinates
added p q =
    let xx = times p.x q.x in
    let yy = times p.y q.y in
    let dt = times (times Parameters.edwards_d p.t) q.t in
    let zz = times p.z q.z in
    let cross = less (less (times (plus p.x p.y) (plus q.x q.y)) xx) yy in
    let difference = less zz dt in
    let sum = plus zz dt in
    let twisted = less yy (times Parameters.edwards_a xx) in
    record {
      x = times cross difference;
      y = times sum twisted;
      z = times difference sum;
      t = times cross twisted;
    }

doubled : Coordinates → Coordinates
doubled p =
    let xx = times p.x p.x in
    let yy = times p.y p.y in
    let two_zz = times 2 (times p.z p.z) in
    let twisted_xx = times Parameters.edwards_a xx in
    let cross = less (less (times (plus p.x p.y) (plus p.x p.y)) xx) yy in
    let sum = plus twisted_xx yy in
    let difference = less sum two_zz in
    let twisted_difference = less twisted_xx yy in
    record {
      x = times cross difference;
      y = times sum twisted_difference;
      z = times difference sum;
      t = times cross twisted_difference;
    }

-- The binary multiple.
unfoldable pub multiplied : ℕ → Coordinates → ℕ → Coordinates
unfolding added doubled
multiplied zero p s = record { x = 0; y = 1; z = 1; t = 0 }
multiplied (suc n) p s =
    let half = multiplied n p (s / 2) in if s % 2 == 1 then added (doubled half) p else doubled half

module _ ⦃b : Bigint⦄ where
  open b.field_form use {new, retrieve}

  plus_lem : (x y : ℕ) → Field.add (new x) (new y) ≡ new (plus x y)
  unfolding Field.add
  plus_lem x y =
      new-add b.field_form.base x y
      ∙ new_congr b.field_form.base (x + y) (plus x y) (sym (mod-mod (x + y) field_modulus))

  times_lem : (x y : ℕ) → Field.mul (new x) (new y) ≡ new (times x y)
  unfolding Field.mul
  times_lem x y =
      new-mul b.field_form.base x y
      ∙ new_congr b.field_form.base (x * y) (times x y) (sym (mod-mod (x * y) field_modulus))

  square_lem : (x : ℕ) → Field.square (new x) ≡ new (times x x)
  square_lem x = field_square_lem (new x) ∙ times_lem x x

  less_lem : (x y : ℕ) → Field.sub (new x) (new y) ≡ new (less x y)
  unfolding Field.sub
  less_lem x y = ext b.field_form.base _ _ (
      b.field_form.retrieve-sub (new x) (new y)
      ∙ ap₂ (λ s t. (s + (field_modulus - t)) % field_modulus) (b.field_form.retrieve-new x)
          (b.field_form.retrieve-new y)
      ∙ add-mod (x % field_modulus) (field_modulus - y % field_modulus) field_modulus
      ∙ ap (λ s. (s + (field_modulus - y % field_modulus) % field_modulus) % field_modulus)
          (mod-mod x field_modulus)
      ∙ sym (add-mod x (field_modulus - y % field_modulus) field_modulus)
      ∙ sym (mod-mod (x + (field_modulus - y % field_modulus)) field_modulus)
      ∙ sym (b.field_form.retrieve-new (less x y)))

  -- The point with those coordinates.
  abbrev pub lift : Coordinates → EdwardsPoint
  lift p = record { x = new p.x; y = new p.y; z = new p.z; t = new p.t }

  add-lift : (p q : Coordinates) → add (lift p) (lift q) ≡ lift (added p q)
  unfolding add added edwards_a edwards_d Field.from_u64
  add-lift p q = simp (times_lem, plus_lem, less_lem)

  double-lift : (p : Coordinates) → double (lift p) ≡ lift (doubled p)
  unfolding double doubled edwards_a two Field.from_u64
  double-lift p = simp (square_lem, times_lem, plus_lem, less_lem)

  identity-lift : identity ≡ lift (record { x = 0; y = 1; z = 1; t = 0 })
  unfolding identity Field.zero_element Field.one_element
  identity-lift = λ i. record {
    x = zero-new b.field_form.base i;
    y = one-new b.field_form.base i;
    z = one-new b.field_form.base i;
    t = zero-new b.field_form.base i;
  }

  pub multiple-lift :
      (n : ℕ) (p : Coordinates) (s : ℕ) → multiple n (lift p) s ≡ lift (multiplied n p s)
  unfolding multiple multiplied
  multiple-lift zero p s = identity-lift
  multiple-lift (suc n) p s = elim (Bool-cases (s % 2 == 1)) [
    | inl odd ↦ rw odd (
        ap (λ t. add (double t) (lift p)) (multiple-lift n p (s / 2))
        ∙ ap (λ t. add t (lift p)) (double-lift (multiplied n p (s / 2)))
        ∙ add-lift (doubled (multiplied n p (s / 2))) p)
    | inr even ↦
        rw even (ap double (multiple-lift n p (s / 2)) ∙ double-lift (multiplied n p (s / 2)))
  ]
