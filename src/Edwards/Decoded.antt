-- ===== src/Edwards/Decoded.antt =====
-- edwards.rs: the values that a successful `decode` passes through.
use mathlib.Core.Bool.{false≢true}
use ed301_eddsa.Base.{ℕ, ◌-◌, ◌*◌, ◌/◌, ◌%◌, ◌^◌, ◌<◌, arith, ◌==◌, ==_iff}
use ed301_eddsa.Base.{◌≡◌, refl, sym, ap, ◌∙◌, Bool, true, false, not, xor, ◌&&◌, ◌||◌}
use ed301_eddsa.Base.{Option, none, some, >>=-eq-some, some_inj, get_or, set}
use ed301_eddsa.Base.{bit_and, bit_or, not-eq-false, if◌then◌else◌}
use ed301_eddsa.Base.Bytes.{Bytes}
use ed301_eddsa.Base.Bits.{all_below, all_below_sound}
use ed301_eddsa.Parameters.{field_bytes}
use ed301_eddsa.Libraries.Bigint.{Bigint}
use ed301_eddsa.Ring.Laws.{mul-one}
use ed301_eddsa.Field
use ed301_eddsa.Field.{FieldElement}
use ed301_eddsa.Field.Arith.{field_ring, is_zero_lem, invert-inverse, conditional_select_lem}
use ed301_eddsa.Field.Parity.{is_odd_lem, is_odd-neg}
use ed301_eddsa.Edwards.{
  EdwardsPoint, edwards_a, edwards_d, from_affine, is_valid, to_u8, refuse_if, decode,
  decode_strict_subgroup, is_prime_subgroup_nonidentity,
}
use ed301_eddsa.Edwards.OnCurve.{IsOnCurve}
use ed301_eddsa.Edwards.OnCurve.Valid.{is_valid→IsOnCurve}

pub refuse_if-some {ℓ} :
    {A : Type ℓ} (c : Bool) (m : Option A) {a : A}
    → refuse_if c m ≡ some a
    → (c ≡ false) × (m ≡ some a)
refuse_if-some true m h = cc
refuse_if-some false m h = (refl, h)

-- The sign bit of the last byte.
abbrev pub sign_of : ℕ → Bool
sign_of last = bit_and (last / 2 ^ 7) 1 == 1

-- A last byte with no reserved bit is its low five bits with the sign put back.
pub last_byte :
    (last : ℕ)
    → last < 256
    → bit_and last 0x60 == 0 ≡ true
    → bit_or (bit_and last 0x1f) (to_u8 (sign_of last) * 2 ^ 7) ≡ last
last_byte last h k = (==_iff _ _).0 (implied _ _ k (all_below_sound 256 kept last table h))
  where
    kept : ℕ → Bool
    kept n = not (bit_and n 0x60 == 0) || (bit_or (bit_and n 0x1f) (to_u8 (sign_of n) * 2 ^ 7) == n)

    table : all_below 256 kept ≡ true
    table = unfold all_below in refl

    implied : (c d : Bool) → c ≡ true → (not c || d) ≡ true → d ≡ true
    implied c d e f = ground arith

module _ ⦃b : Bigint⦄ where
  pub is_odd-zero : Field.is_odd Field.zero_element ≡ false
  unfolding Field.zero_element
  is_odd-zero = is_odd_lem b.field_form.zero_elem ∙ ap (λ n. n % 2 == 1) b.field_form.retrieve-zero

  -- The chosen root has the parity that the sign bit asks for.
  pub chosen_sign :
      (root : FieldElement) (sign : Bool)
      → (Field.is_zero root && sign) ≡ false
      → Field.is_odd (Field.conditional_select root (Field.neg root) (xor (Field.is_odd root) sign))
        ≡ sign
  unfolding xor
  chosen_sign root sign h =
      ap Field.is_odd (conditional_select_lem root (Field.neg root) (xor (Field.is_odd root) sign))
      ∙ by_parity (Field.is_odd root) sign refl h
    where
      by_parity :
          (odd sign' : Bool)
          → Field.is_odd root ≡ odd
          → (Field.is_zero root && sign') ≡ false
          → Field.is_odd (if xor odd sign' then Field.neg root else root) ≡ sign'
      by_parity true true e k = e
      by_parity false false e k = e
      by_parity true false e k =
          is_odd-neg root (λ z. false≢true (sym is_odd-zero ∙ ap Field.is_odd (sym z) ∙ e))
          ∙ ap not e
      by_parity false true e k =
          is_odd-neg root (λ z. false≢true (sym k ∙ ap (λ c. c && true) ((is_zero_lem root).1 z)))
          ∙ ap not e

  abbrev pub last_of : Bytes → ℕ
  last_of bs = get_or bs (field_bytes - 1) 0

  -- The values that a successful decoding passes through.
  pub record IsDecoded (bs : Bytes) (p : EdwardsPoint) : Type 0 where
    pub y : FieldElement
    pub inverse : FieldElement
    pub root : FieldElement
    pub unreserved : bit_and (last_of bs) 0x60 == 0 ≡ true
    pub y_decodes :
        Field.from_canonical_bytes (set bs (field_bytes - 1) (bit_and (last_of bs) 0x1f)) ≡ some y
    pub denominator :
        Field.invert (Field.sub edwards_a (Field.mul edwards_d (Field.square y))) ≡ some inverse
    pub square_root :
        Field.sqrt (Field.mul (Field.sub Field.one_element (Field.square y)) inverse) ≡ some root
    pub sign_allowed : (Field.is_zero root && sign_of (last_of bs)) ≡ false
    pub result :
        from_affine
          (Field.conditional_select root
            (Field.neg root)
            (xor (Field.is_odd root) (sign_of (last_of bs))))
          y
        ≡ p
    pub valid : is_valid p ≡ true

  pub decode-IsDecoded : (bs : Bytes) (p : EdwardsPoint) → decode bs ≡ some p → IsDecoded bs p
  unfolding decode
  decode-IsDecoded bs p h =
      let (e1, h1) = refuse_if-some _ _ h in
      let (y, e2, h2) = >>=-eq-some _ _ h1 in
      let (inverse, e3, h3) = >>=-eq-some _ _ h2 in
      let (root, e4, h4) = >>=-eq-some _ _ h3 in
      let (e5, h5) = refuse_if-some _ _ h4 in
      let (e6, h6) = refuse_if-some _ _ h5 in
      record {
        y = y;
        inverse = inverse;
        root = root;
        unreserved = not-eq-false _ e1;
        y_decodes = e2;
        denominator = e3;
        square_root = e4;
        sign_allowed = e5;
        result = some_inj h6;
        valid = ap is_valid (sym (some_inj h6)) ∙ not-eq-false _ e6;
      }

  pub one-inverse : Field.invert Field.one_element ≡ some Field.one_element
  one-inverse = by_result (Field.invert Field.one_element) refl
    where
      by_result :
          (r : Option FieldElement)
          → Field.invert Field.one_element ≡ r
          → Field.invert Field.one_element ≡ some Field.one_element
      by_result none e =
          absurd ((invert-inverse Field.one_element).1 Field.one_element e (mul-one _))
      by_result (some w) e =
          e ∙ ap some (sym (field_ring.one-mul w) ∙ (invert-inverse Field.one_element).0 w e)

  module _ {bs : Bytes} {p : EdwardsPoint} (h : IsDecoded bs p) where
    pub decoded_z : p.z ≡ Field.one_element
    unfolding from_affine
    decoded_z = ap (λ q. q.z) (sym h.result)

    -- What decodes is a point of the curve.
    pub IsDecoded-IsOnCurve : IsOnCurve p
    IsDecoded-IsOnCurve =
        is_valid→IsOnCurve p Field.one_element
          (ap (λ z. Field.mul z Field.one_element) decoded_z ∙ mul-one _) h.valid

    pub decoded_y : p.y ≡ h.y
    unfolding from_affine
    decoded_y = ap (λ q. q.y) (sym h.result)

    pub decoded_sign : Field.is_odd p.x ≡ sign_of (last_of bs)
    unfolding from_affine
    decoded_sign =
        ap (λ q. Field.is_odd q.x) (sym h.result)
        ∙ chosen_sign h.root (sign_of (last_of bs)) h.sign_allowed

  pub decode_strict-decode :
      (bs : Bytes) (p : EdwardsPoint)
      → decode_strict_subgroup bs ≡ some p
      → (decode bs ≡ some p) × (is_prime_subgroup_nonidentity p ≡ true)
  unfolding decode_strict_subgroup
  decode_strict-decode bs p h =
      let (q, e, k) = >>=-eq-some _ _ h in
      let (member, same) = refuse_if-some _ _ k in
      (e ∙ same, ap is_prime_subgroup_nonidentity (sym (some_inj same)) ∙ not-eq-false _ member)
