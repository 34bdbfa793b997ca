-- ===== src/Parameters.antt =====
-- crates/ed301-eddsa/src/parameters.rs, and the two moduli that field.rs and scalar.rs declare to
-- the big integer library.
use Prim.Native.String.{String}
use ed301_eddsa.Base.{ℕ, ◌*◌}

abbrev pub specification : String
specification = "Ed301-EdDSA-draft-00"

abbrev pub parameter_set : String
parameter_set = "ED301-v1"

abbrev pub field_bits : ℕ
field_bits = 301

abbrev pub field_bytes : ℕ
field_bytes = 38

abbrev pub scalar_bytes : ℕ
scalar_bytes = field_bytes

abbrev pub seed_bytes : ℕ
seed_bytes = field_bytes

abbrev pub public_key_bytes : ℕ
public_key_bytes = field_bytes

abbrev pub signature_bytes : ℕ
signature_bytes = 2 * field_bytes

abbrev pub hash_bytes : ℕ
hash_bytes = 2 * field_bytes

abbrev pub cofactor : ℕ
cofactor = 4

abbrev pub edwards_a : ℕ
edwards_a = 2_086_388_329

abbrev pub edwards_d : ℕ
edwards_d = 301

-- `U320::BYTES`.
abbrev pub u320_bytes : ℕ
u320_bytes = 40

-- p = 2^301 - 2^99 + 947.
abbrev pub field_modulus : ℕ
field_modulus = 0x1ffffffffffffffffffffffffffffffffffffffffffffffffff80000000000000000000003b3

-- L, the order of the prime subgroup.
abbrev pub scalar_modulus : ℕ
scalar_modulus = 0x800000000000000000000000000000000000016dcc80892809847fb4a312602e3a1d0be9603
