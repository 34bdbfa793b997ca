-- ===== src/Edwards/RoundTrip.antt =====
-- edwards.rs: `encode` of a valid point succeeds, and `decode` finds the point again.
use ed301_eddsa.Base.{
  ℕ, ◌+◌, ◌-◌, ◌*◌, ◌/◌, ◌^◌, ◌<◌, arith, ◌==◌, ==_iff, ◌≡◌, refl, sym, ap, ap₂, ◌∙◌, ◌⊎◌, inl, inr,
  Bool, true, false, not, xor, ◌&&◌, Bool-cases, if◌then◌else◌, some, get_or, set, length, bit_and,
  bit_or, [], ◌∷◌,
}
use ed301_eddsa.Base.Bytes.{Bytes, le_bytes, length-le_bytes, le_value-le_bytes}
use ed301_eddsa.Base.Arrays.{get_or-set, set-set_self, value-last}
use ed301_eddsa.Base.Bits.{bit_and_0x1f, bit_and_0x60, bit_and_one, bit_or_sign}
use ed301_eddsa.Parameters.{field_bytes}
use ed301_eddsa.Ring.Terms.{var, zero_term, minus}
use ed301_eddsa.Ring.Solver.{solve}
use ed301_eddsa.Libraries.Bigint.{Bigint}
use ed301_eddsa.Field
use ed301_eddsa.Field.{FieldElement}
use ed301_eddsa.Field.Arith.{field_ring, conditional_select_lem, is_zero_lem}
use ed301_eddsa.Field.Codec.{to_canonical_bytes_lem, from_canonical_bytes-to}
use ed301_eddsa.Field.Parity.{is_odd-neg}
use ed301_eddsa.Field.Prime.{zero_or_not}
use ed301_eddsa.Edwards.{to_u8}
use ed301_eddsa.Edwards.Decoded.{last_of, sign_of, chosen_sign, is_odd-zero}

-- The byte of a value below 32 with a sign bit.
signed-last :
    (last s : ℕ)
    → last < 32
    → s < 2
    → (bit_and (last + s * 128) 0x60 == 0 ≡ true)
      × (bit_and (last + s * 128) 0x1f ≡ last)
      × (sign_of (last + s * 128) ≡ (s == 1))
signed-last last s h k = (
  (==_iff _ _).1 (bit_and_0x60 (last + s * 128) (omega arith) ∙ omega arith),
  bit_and_0x1f (last + s * 128) (omega arith) ∙ omega arith,
  ap (λ t. t == 1) (bit_and_one ((last + s * 128) / 2 ^ 7) (omega arith) ∙ omega arith),
)

to_u8-sign : (c : Bool) → (to_u8 c < 2) × ((to_u8 c == 1) ≡ c)
to_u8-sign true = (omega arith, refl)
to_u8-sign false = (omega arith, refl)

module _ ⦃b : Bigint⦄ where
  -- The bytes of an affine point.
  unfoldable pub packed : FieldElement → FieldElement → Bytes
  packed u v =
      let encoded = Field.to_canonical_bytes v in
      set encoded (field_bytes - 1)
        (bit_or (get_or encoded (field_bytes - 1) 0) (to_u8 (Field.is_odd u) * 2 ^ 7))

  module _ (v : FieldElement) where
    abbrev r : ℕ
    r = b.field_form.retrieve v

    abbrev last : ℕ
    last = get_or (Field.to_canonical_bytes v) 37 0

    last-lt : last < 32
    last-lt = rw (to_canonical_bytes_lem v) (
        omega (
          arith,
          value-last 37 (le_bytes 38 r) (length-le_bytes 38 r),
          le_value-le_bytes 38 r (omega (arith, b.field_form.retrieve-lt v)),
          b.field_form.retrieve-lt v,
        ))

    packed-last : (u : FieldElement) → last_of (packed u v) ≡ last + to_u8 (Field.is_odd u) * 128
    unfolding packed
    packed-last u =
        get_or-set (Field.to_canonical_bytes v) 37 _
          (omega (arith, ap length (to_canonical_bytes_lem v), length-le_bytes 38 r))
        ∙ bit_or_sign last (omega (arith, last-lt)) (to_u8 (Field.is_odd u))
            (to_u8-sign (Field.is_odd u)).0 (omega (arith, last-lt))

    packed_low : (u : FieldElement) → set (packed u v) 37 last ≡ Field.to_canonical_bytes v
    unfolding packed
    packed_low u = set-set_self (Field.to_canonical_bytes v) 37 _

    -- What `decode` reads from the bytes: no reserved bit, the value of v, and the parity of u.
    pub packed_parts :
        (u : FieldElement)
        → (bit_and (last_of (packed u v)) 0x60 == 0 ≡ true)
          × (Field.from_canonical_bytes
                (set (packed u v) (field_bytes - 1) (bit_and (last_of (packed u v)) 0x1f))
              ≡ some v)
          × (sign_of (last_of (packed u v)) ≡ Field.is_odd u)
    packed_parts u =
        let (unreserved, low, sign) =
          signed-last last (to_u8 (Field.is_odd u)) last-lt (to_u8-sign (Field.is_odd u)).0 in
        (
          ap (λ t. bit_and t 0x60 == 0) (packed-last u) ∙ unreserved,
          ap Field.from_canonical_bytes (
                ap (set (packed u v) 37) (ap (λ t. bit_and t 0x1f) (packed-last u) ∙ low)
                ∙ packed_low u)
              ∙ from_canonical_bytes-to v,
          ap sign_of (packed-last u) ∙ sign ∙ (to_u8-sign (Field.is_odd u)).1,
        )

  neg-neg : (x : FieldElement) → Field.neg (Field.neg x) ≡ x
  neg-neg x = solve (x ∷ []) (minus (minus (var 0))) (var 0) refl

  neg-zero : Field.neg Field.zero_element ≡ Field.zero_element
  neg-zero = solve [] (minus zero_term) zero_term refl

  -- Of the two roots, the one with the right parity.
  same_parity :
      (x u : FieldElement) → (x ≡ u) ⊎ (x ≡ Field.neg u) → Field.is_odd x ≡ Field.is_odd u → x ≡ u
  same_parity x u h parity = elim h [
    | inl e ↦ e
    | inr e ↦ elim (zero_or_not u) [
      | inl z ↦ e ∙ ap Field.neg z ∙ neg-zero ∙ sym z
      | inr other ↦
          absurd (
            not_self (Field.is_odd u) (sym (is_odd-neg u other) ∙ ap Field.is_odd (sym e) ∙ parity))
    ]
  ]
    where
      not_self : (c : Bool) → not c ≡ c → ⊥
      not_self true k = cc
      not_self false k = cc

  -- The square root that the sign bit chooses is the coordinate.
  pub chosen_root :
      (u root : FieldElement)
      → (root ≡ u) ⊎ (root ≡ Field.neg u)
      → ((Field.is_zero root && Field.is_odd u) ≡ false)
        × (Field.conditional_select root (Field.neg root) (xor (Field.is_odd root) (Field.is_odd u))
            ≡ u)
  chosen_root u root h = (
    allowed,
    conditional_select_lem root (Field.neg root) (xor (Field.is_odd root) (Field.is_odd u))
        ∙ same_parity _ u (either (xor (Field.is_odd root) (Field.is_odd u)) h) (
            ap Field.is_odd (
              sym (
                conditional_select_lem root (Field.neg root)
                  (xor (Field.is_odd root) (Field.is_odd u))))
            ∙ chosen_sign root (Field.is_odd u) allowed),
  )
    where
      zero_root : root ≡ Field.zero_element → u ≡ Field.zero_element
      zero_root z = elim h [
        | inl e ↦ sym e ∙ z
        | inr e ↦ sym (neg-neg u) ∙ ap Field.neg (sym e ∙ z) ∙ neg-zero
      ]

      allowed : (Field.is_zero root && Field.is_odd u) ≡ false
      allowed = elim (Bool-cases (Field.is_zero root)) [
        | inl z ↦ ap₂ ◌&&◌ z (ap Field.is_odd (zero_root ((is_zero_lem root).0 z)) ∙ is_odd-zero)
        | inr n ↦ ap (λ c. c && Field.is_odd u) n
      ]

      either :
          (c : Bool)
          → (root ≡ u) ⊎ (root ≡ Field.neg u)
          → ((if c then Field.neg root else root) ≡ u)
            ⊎ ((if c then Field.neg root else root) ≡ Field.neg u)
      either true (inl e) = inr (ap Field.neg e)
      either true (inr e) = inl (ap Field.neg e ∙ neg-neg u)
      either false k = k
