-- ===== src/Field/Parity.antt =====
-- field.rs: the parity of the canonical representative.
use native.Mathlib.Nat.{mod-eq_of_lt}
use ed301_eddsa.Base.{ℕ, ◌-◌, ◌%◌, ◌<◌, arith, ◌==◌, not}
use ed301_eddsa.Base.{◌≡◌, ◌≢◌, sym, ap, ◌∙◌, bit_and, get_or}
use native.Mathlib.Decide.{dec_lt}
use ed301_eddsa.Base.Bytes.{le_bytes}
use ed301_eddsa.Base.Bits.{bit_and_one}
use ed301_eddsa.Parameters.{field_modulus}
use ed301_eddsa.Libraries.Bigint.{Bigint}
use ed301_eddsa.Libraries.Montgomery.Residues.{ext}
use ed301_eddsa.Field.{FieldElement, zero_element, neg, is_odd}
use ed301_eddsa.Field.Codec.{to_canonical_bytes_lem}

odd_flip : (n : ℕ) → 0 < n → n < field_modulus → (field_modulus - n) % 2 == 1 ≡ not (n % 2 == 1)
odd_flip n pos h = ground arith

module _ ⦃b : Bigint⦄ where
  open b.field_form use {retrieve}

  pub is_odd_lem : (x : FieldElement) → is_odd x ≡ (retrieve x % 2 == 1)
  unfolding is_odd le_bytes
  is_odd_lem x =
      ap (λ t. bit_and (get_or t 0 0) 1 == 1) (to_canonical_bytes_lem x)
      ∙ ap (λ t. t == 1) (bit_and_one (retrieve x % 256) (omega arith))
      ∙ ap (λ t. t == 1) {x = retrieve x % 256 % 2} {y = retrieve x % 2} (omega arith)

  retrieve_pos : (x : FieldElement) → x ≢ zero_element → 0 < retrieve x
  unfolding zero_element
  retrieve_pos x h = elim (dec_lt 0 (retrieve x)) [
    | yes p ↦ p
    | no p ↦ absurd (h (ext b.field_form.base x b.field_form.zero_elem (same p)))
  ]
    where
      same : ¬ (0 < retrieve x) → retrieve x ≡ retrieve b.field_form.zero_elem
      same p = omega (arith, b.field_form.retrieve-zero)

  -- The negative of a nonzero element has the other parity, so that the sign bit tells the two
  -- roots apart.
  pub is_odd-neg : (x : FieldElement) → x ≢ zero_element → is_odd (neg x) ≡ not (is_odd x)
  unfolding neg
  is_odd-neg x h =
      is_odd_lem (b.field_form.neg x)
      ∙ ap (λ t. t % 2 == 1) (b.field_form.retrieve-neg x ∙ mod-eq_of_lt below)
      ∙ odd_flip (retrieve x) (retrieve_pos x h) (b.field_form.retrieve-lt x)
      ∙ ap not (sym (is_odd_lem x))
    where
      below : field_modulus - retrieve x < field_modulus
      below = omega (arith, retrieve_pos x h)
