-- ===== src/Libraries/Reference.antt =====
-- Plain arithmetic that meets the interfaces, so that the model runs and the theorems about it have
-- instances. The crate's own backend is not modelled.
pub mod Plain
pub mod Inverse
pub mod Digests
use mathlib.Core.Bool.{cond}
use native.Mathlib.Nat.{mod-lt, mod-mod}
use ed301_eddsa.Base.{
  ℕ, ◌+◌, ◌/◌, ◌%◌, ◌^◌, ◌<◌, ◌≡◌, refl, ◌∙◌, arith, Bool, ltb, ◌==◌, ==_iff, ◌↔◌, ap, List,
}
use ed301_eddsa.Base.{if◌then◌else◌}
use ed301_eddsa.Base.Bytes.{le_value, le_bytes}
use ed301_eddsa.Base.Words.{words_value, words}
use ed301_eddsa.Numbers.Powers.{pow, power, power_lem}
use ed301_eddsa.Parameters.{field_modulus, scalar_modulus, u320_bytes}
use ed301_eddsa.Libraries.Montgomery.{MontyForm}
use ed301_eddsa.Libraries.Bigint.{Bigint}
use Plain.{Residue, Residue_ext, residues}
use Inverse.{inverse, inverse-some, inverse-none}

pub ct_eq-residue : (m : ℕ) (pos : 0 < m) (a b : Residue m pos) → (a.0 == b.0 ≡ Bool.true) ↔ (a ≡ b)
ct_eq-residue m pos a b =
    (λ h. Residue_ext m pos a b ((==_iff a.0 b.0).0 h), λ e. (==_iff a.0 b.0).1 (ap (λ x. x.0) e))

abbrev pub plain_form : (m : ℕ) → 1 < m → MontyForm m
plain_form m big = record {
  base = residues m (omega arith);
  invert = inverse m big;
  pow_bounded_exp = λ a e k. (power m k a.0 e % m, mod-lt _ (omega arith));
  pow_bounded_exp_lem = λ a e k h. ap (λ t. t % m) (power_lem m k a.0 e h) ∙ mod-mod (pow a.0 e) m;
  ct_eq = λ a b. a.0 == b.0;
  ct_assign = λ a b choice. if choice then b else a;
  invert-some = inverse-some m big;
  invert-none = inverse-none m big;
  ct_eq_iff = ct_eq-residue m (omega arith);
  ct_assign-true = λ a b. refl;
  ct_assign-false = λ a b. refl;
}

abbrev pub plain_bigint : Bigint
plain_bigint = record {
  field_form = plain_form field_modulus (omega arith);
  scalar_form = plain_form scalar_modulus (omega arith);
  from_le_slice = le_value;
  to_le_bytes = le_bytes u320_bytes;
  from_words = words_value;
  to_words = words 5;
  ct_lt = ltb;
  add_mod = λ a b m. (a + b) % m;
  bit = λ x i. x / 2 ^ i % 2 == 1;
  from_le_slice_lem = λ bs h. refl;
  to_le_bytes_lem = λ x h. refl;
  from_words_lem = λ ws h k. refl;
  to_words_lem = λ x h. refl;
  ct_lt_lem = λ a b. refl;
  add_mod_lem = λ a b m h k l. refl;
  bit_lem = λ x i. refl;
}
