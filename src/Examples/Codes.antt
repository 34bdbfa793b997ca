-- ===== src/Examples/Codes.antt =====
-- The theorems on field elements and scalars, applied to small values and to the recorded bytes.
use ed301_eddsa.Base.{ℕ, ◌^◌, ◌≢◌, ◌⊎◌, none, ◌+◌, ◌*◌, ◌%◌, ◌<◌, arith, ◌≡◌, ◌↔◌, refl, some}
use ed301_eddsa.Base.Bytes.{IsArray, IsBytes_of, le_value}
use ed301_eddsa.Parameters.{scalar_modulus}
use ed301_eddsa.Field
use ed301_eddsa.Field.{FieldElement}
use ed301_eddsa.Field.Prime.{invert_total}
use ed301_eddsa.Field.Roots.{sqrt_total}
use ed301_eddsa.Field.Codec.{field_decoding_iff}
use ed301_eddsa.Scalar
use ed301_eddsa.Scalar.Reduce.{reduce_pruned_le_lem}
use ed301_eddsa.Scalar.Oracle.{Divides, division_oracle, reduce_hash_le-division_oracle}
use ed301_eddsa.Scalar.Codec.{scalar_decoding_iff}
use ed301_eddsa.Scalar.Arith.{response_lem}
use ed301_eddsa.Examples.Vectors.{backend, public_key, signature}
use ed301_eddsa.Examples.Points.{four}

public_key-IsArray : IsArray 38 public_key
public_key-IsArray = (refl, IsBytes_of public_key refl)

field_decoding_iff_example :
    (Field.from_canonical_bytes public_key ≡ some (Field.from_u64 2))
    ↔ (Field.to_canonical_bytes (Field.from_u64 2) ≡ public_key)
field_decoding_iff_example = field_decoding_iff public_key (Field.from_u64 2) public_key-IsArray

reduce_pruned_le_lem_example :
    Scalar.reduce_pruned_le public_key ≡ le_value public_key % scalar_modulus
reduce_pruned_le_lem_example = reduce_pruned_le_lem public_key public_key-IsArray

scalar_decoding_iff_example :
    (Scalar.from_canonical_bytes public_key ≡ some 7)
    ↔ ((7 < scalar_modulus) × (Scalar.canonical_bytes 7 ≡ public_key))
scalar_decoding_iff_example = scalar_decoding_iff public_key 7 public_key-IsArray

response_lem_example : Scalar.add 5 (Scalar.mul 6 7) ≡ (5 + 6 * 7) % scalar_modulus
response_lem_example = response_lem 5 6 7 (omega arith)

invert_total_example :
    ((four ≡ Field.zero_element) × (Field.invert four ≡ none))
    ⊎ ((four ≢ Field.zero_element)
        × ((y : FieldElement) × (Field.invert four ≡ some y)
            × (Field.mul four y ≡ Field.one_element)))
invert_total_example = invert_total four

sqrt_total_example :
    (c : FieldElement) × (Field.sqrt (Field.square four) ≡ some c)
    × ((c ≡ four) ⊎ (c ≡ Field.neg four))
sqrt_total_example = sqrt_total four

abbrev rem_wide : ℕ × ℕ → ℕ → ℕ
rem_wide x m = (x.0 + 2 ^ 320 * x.1) % m

rem_wide-Divides : Divides rem_wide
rem_wide-Divides low high m _ _ _ = refl

reduce_hash_le-division_oracle_example :
    Scalar.reduce_hash_le signature ≡ division_oracle rem_wide signature
reduce_hash_le-division_oracle_example =
    reduce_hash_le-division_oracle rem_wide rem_wide-Divides signature
      (refl, IsBytes_of signature refl)
