-- ===== src/Edwards/Complete/Generator.antt =====
-- edwards.rs: the base point is valid.
use ed301_eddsa.Base.{ℕ, ◌*◌, ◌+◌, ◌≡◌, refl, sym, ap, ap₂, ◌∙◌, arith, List, [], ◌∷◌, length}
use ed301_eddsa.Base.Words.{IsWords, words_value}
use ed301_eddsa.Parameters
use ed301_eddsa.Ring.{◌⊕◌, ◌⊗◌}
use ed301_eddsa.Libraries.Bigint.{Bigint}
use ed301_eddsa.Libraries.Montgomery.Residues.{new-add, new-mul, new_congr, one-new}
use ed301_eddsa.Field
use ed301_eddsa.Field.{FieldElement}
use ed301_eddsa.Field.Arith.{field_ring, field_square_lem}
use ed301_eddsa.Field.Prime.{one_ne_zero}
use ed301_eddsa.Edwards.{edwards_a, edwards_d, basepoint}
use ed301_eddsa.Edwards.Complete.Closed.{IsValid}

-- The words of the coordinates x, y and t.
abbrev pub x_words : List ℕ
x_words =
    0x76e2_adfb_00c0_3d1f ∷ 0x4942_cad7_bf84_1f3f ∷ 0x5cdb_b15e_84b5_2add ∷ 0x3be0_acb6_161a_2783
    ∷ 0x0000_0000_3aee_6839 ∷ []

abbrev pub y_words : List ℕ
y_words =
    0x6580_0c5a_753f_f76b ∷ 0xd7f7_6f6d_cf3f_e83c ∷ 0x67ac_2492_92b1_47f3 ∷ 0xc8f2_6c9e_4173_2255
    ∷ 0x0000_1888_d302_8aa8 ∷ []

abbrev pub t_words : List ℕ
t_words =
    0xf743_65f4_4b45_598d ∷ 0x215c_9ee6_a9b1_002e ∷ 0xc602_cc68_7276_039c ∷ 0xb024_6816_daaa_5ae2
    ∷ 0x0000_01db_90e5_effb ∷ []

module _ ⦃b : Bigint⦄ where
  pub from_words_eq :
      (ws : List ℕ)
      → length ws ≡ 5
      → IsWords ws
      → Field.from_canonical_words ws ≡ b.field_form.new (words_value ws)
  unfolding Field.from_canonical_words Field.from_canonical_uint
  from_words_eq ws n h = ap b.field_form.new (b.from_words_lem ws n h)

  square-new : (x : ℕ) → Field.square (b.field_form.new x) ≡ b.field_form.new (x * x)
  unfolding Field.mul
  square-new x = field_square_lem (b.field_form.new x) ∙ new-mul b.field_form.base x x

  abbrev element : ℕ → FieldElement
  element = b.field_form.new

  abbrev x : ℕ
  x = words_value x_words

  abbrev y : ℕ
  y = words_value y_words

  abbrev t : ℕ
  t = words_value t_words

  extended_lem : Field.mul (element x) (element y) ≡ Field.mul (element 1) (element t)
  unfolding Field.mul
  extended_lem =
      new-mul b.field_form.base x y
      ∙ new_congr b.field_form.base (x * y) (1 * t) refl
      ∙ sym (new-mul b.field_form.base 1 t)

  coefficient_lem :
      (k n m : ℕ)
      → element k ⊗ Field.square (element n) ⊕ Field.square (element m)
        ≡ element (k * (n * n) + m * m)
  unfolding Field.mul Field.add
  coefficient_lem k n m =
      ap₂ (λ s u. element k ⊗ s ⊕ u) (square-new n) (square-new m)
      ∙ ap (λ s. s ⊕ element (m * m)) (new-mul b.field_form.base k (n * n))
      ∙ new-add b.field_form.base (k * (n * n)) (m * m)

  curve_lem :
      element Parameters.edwards_a ⊗ Field.square (element x) ⊕ Field.square (element y)
      ≡ Field.square (element 1) ⊕ element Parameters.edwards_d ⊗ Field.square (element t)
  curve_lem =
      coefficient_lem Parameters.edwards_a x y
      ∙ new_congr b.field_form.base (Parameters.edwards_a * (x * x) + y * y)
          (Parameters.edwards_d * (t * t) + 1 * 1) refl
      ∙ sym (coefficient_lem Parameters.edwards_d t 1)
      ∙ field_ring.add_comm _ _

  pub one_element-new : Field.one_element ≡ element 1
  unfolding Field.one_element
  one_element-new = one-new b.field_form.base

  pub basepoint-IsValid : IsValid basepoint
  unfolding basepoint edwards_a edwards_d Field.from_u64
  basepoint-IsValid = record {
    on_curve = record {
      extended =
          ap₂ Field.mul (from_words_eq x_words refl (omega arith))
            (from_words_eq y_words refl (omega arith))
          ∙ extended_lem
          ∙ ap₂ Field.mul (sym one_element-new) (sym (from_words_eq t_words refl (omega arith)));
      curve =
          ap₂ (λ u v. element Parameters.edwards_a ⊗ Field.square u ⊕ Field.square v)
            (from_words_eq x_words refl (omega arith)) (from_words_eq y_words refl (omega arith))
          ∙ curve_lem
          ∙ ap₂ (λ u v. Field.square u ⊕ element Parameters.edwards_d ⊗ Field.square v)
              (sym one_element-new) (sym (from_words_eq t_words refl (omega arith)));
    };
    nonzero = one_ne_zero;
  }
