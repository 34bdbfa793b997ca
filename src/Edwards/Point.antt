-- ===== src/Edwards/Point.antt =====
-- edwards.rs: the point type, its constants, and the complete formulas.
use ed301_eddsa.Base.{Bool, not, ◌&&◌, [], ◌∷◌}
use ed301_eddsa.Base.Bytes.{Bytes}
use ed301_eddsa.Parameters
use ed301_eddsa.Libraries.Bigint.{Bigint}
use ed301_eddsa.Field
use ed301_eddsa.Field.{FieldElement}

abbrev pub basepoint_encoding : Bytes
basepoint_encoding =
    0x6b ∷ 0xf7 ∷ 0x3f ∷ 0x75 ∷ 0x5a ∷ 0x0c ∷ 0x80 ∷ 0x65 ∷ 0x3c ∷ 0xe8 ∷ 0x3f ∷ 0xcf ∷ 0x6d ∷ 0x6f
    ∷ 0xf7 ∷ 0xd7 ∷ 0xf3 ∷ 0x47 ∷ 0xb1 ∷ 0x92 ∷ 0x92 ∷ 0x24 ∷ 0xac ∷ 0x67 ∷ 0x55 ∷ 0x22 ∷ 0x73
    ∷ 0x41 ∷ 0x9e ∷ 0x6c ∷ 0xf2 ∷ 0xc8 ∷ 0xa8 ∷ 0x8a ∷ 0x02 ∷ 0xd3 ∷ 0x88 ∷ 0x98 ∷ []

abbrev pub prime_order_bytes : Bytes
prime_order_bytes =
    0x03 ∷ 0x96 ∷ 0xbe ∷ 0xd0 ∷ 0xa1 ∷ 0xe3 ∷ 0x02 ∷ 0x26 ∷ 0x31 ∷ 0x4a ∷ 0xfb ∷ 0x47 ∷ 0x98 ∷ 0x80
    ∷ 0x92 ∷ 0x08 ∷ 0xc8 ∷ 0xdc ∷ 0x16 ∷ 0x00 ∷ 0x00 ∷ 0x00 ∷ 0x00 ∷ 0x00 ∷ 0x00 ∷ 0x00 ∷ 0x00
    ∷ 0x00 ∷ 0x00 ∷ 0x00 ∷ 0x00 ∷ 0x00 ∷ 0x00 ∷ 0x00 ∷ 0x00 ∷ 0x00 ∷ 0x00 ∷ 0x08 ∷ []

module _ ⦃b : Bigint⦄ where
  unfoldable pub edwards_a : FieldElement
  edwards_a = Field.from_u64 Parameters.edwards_a

  unfoldable pub edwards_d : FieldElement
  edwards_d = Field.from_u64 Parameters.edwards_d

  unfoldable pub two : FieldElement
  two = Field.from_u64 2

  pub record EdwardsPoint : Type 0 where
    pub x : FieldElement
    pub y : FieldElement
    pub z : FieldElement
    pub t : FieldElement

  unfoldable pub identity : EdwardsPoint
  identity = record {
    x = Field.zero_element;
    y = Field.one_element;
    z = Field.one_element;
    t = Field.zero_element;
  }

  unfoldable pub basepoint : EdwardsPoint
  basepoint = record {
    x = Field.from_canonical_words (
        0x76e2_adfb_00c0_3d1f ∷ 0x4942_cad7_bf84_1f3f ∷ 0x5cdb_b15e_84b5_2add
        ∷ 0x3be0_acb6_161a_2783 ∷ 0x0000_0000_3aee_6839 ∷ []);
    y = Field.from_canonical_words (
        0x6580_0c5a_753f_f76b ∷ 0xd7f7_6f6d_cf3f_e83c ∷ 0x67ac_2492_92b1_47f3
        ∷ 0xc8f2_6c9e_4173_2255 ∷ 0x0000_1888_d302_8aa8 ∷ []);
    z = Field.one_element;
    t = Field.from_canonical_words (
        0xf743_65f4_4b45_598d ∷ 0x215c_9ee6_a9b1_002e ∷ 0xc602_cc68_7276_039c
        ∷ 0xb024_6816_daaa_5ae2 ∷ 0x0000_01db_90e5_effb ∷ []);
  }

  unfoldable pub from_affine : FieldElement → FieldElement → EdwardsPoint
  from_affine x y = record { x = x; y = y; z = Field.one_element; t = Field.mul x y }

  unfoldable pub add : EdwardsPoint → EdwardsPoint → EdwardsPoint
  add self rhs =
      let xx = Field.mul self.x rhs.x in
      let yy = Field.mul self.y rhs.y in
      let dt = Field.mul (Field.mul edwards_d self.t) rhs.t in
      let zz = Field.mul self.z rhs.z in
      let cross =
        Field.sub (Field.sub (Field.mul (Field.add self.x self.y) (Field.add rhs.x rhs.y)) xx) yy in
      let difference = Field.sub zz dt in
      let sum = Field.add zz dt in
      let twisted = Field.sub yy (Field.mul edwards_a xx) in
      record {
        x = Field.mul cross difference;
        y = Field.mul sum twisted;
        z = Field.mul difference sum;
        t = Field.mul cross twisted;
      }

  unfoldable pub double : EdwardsPoint → EdwardsPoint
  double self =
      let xx = Field.square self.x in
      let yy = Field.square self.y in
      let two_zz = Field.mul two (Field.square self.z) in
      let twisted_xx = Field.mul edwards_a xx in
      let cross = Field.sub (Field.sub (Field.square (Field.add self.x self.y)) xx) yy in
      let sum = Field.add twisted_xx yy in
      let difference = Field.sub sum two_zz in
      let twisted_difference = Field.sub twisted_xx yy in
      record {
        x = Field.mul cross difference;
        y = Field.mul sum twisted_difference;
        z = Field.mul difference sum;
        t = Field.mul cross twisted_difference;
      }

  unfoldable pub negate : EdwardsPoint → EdwardsPoint
  negate self = record { x = Field.neg self.x; y = self.y; z = self.z; t = Field.neg self.t }

  unfoldable pub is_identity : EdwardsPoint → Bool
  is_identity self = Field.is_zero self.x && Field.ct_eq self.y self.z

  unfoldable pub multiply_by_cofactor : EdwardsPoint → EdwardsPoint
  multiply_by_cofactor self = double (double self)

  unfoldable pub ct_eq : EdwardsPoint → EdwardsPoint → Bool
  ct_eq self rhs =
      Field.ct_eq (Field.mul self.x rhs.z) (Field.mul rhs.x self.z)
      && Field.ct_eq (Field.mul self.y rhs.z) (Field.mul rhs.y self.z)

  unfoldable pub is_valid : EdwardsPoint → Bool
  is_valid self =
      let xx = Field.square self.x in
      let yy = Field.square self.y in
      let zz = Field.square self.z in
      let extended_relation = Field.ct_eq (Field.mul self.x self.y) (Field.mul self.z self.t) in
      let left = Field.add (Field.mul (Field.mul edwards_a xx) zz) (Field.mul yy zz) in
      let right = Field.add (Field.square zz) (Field.mul (Field.mul edwards_d xx) yy) in
      not (Field.is_zero self.z) && extended_relation && Field.ct_eq left right

  unfoldable pub conditional_select : EdwardsPoint → EdwardsPoint → Bool → EdwardsPoint
  conditional_select when_false when_true choice = record {
    x = Field.conditional_select when_false.x when_true.x choice;
    y = Field.conditional_select when_false.y when_true.y choice;
    z = Field.conditional_select when_false.z when_true.z choice;
    t = Field.conditional_select when_false.t when_true.t choice;
  }
