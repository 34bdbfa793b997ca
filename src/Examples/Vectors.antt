-- ===== src/Examples/Vectors.antt =====
-- Known answers of inputs/round4/ed301-eddsa-draft-00.json, and the interfaces to run them with.
use ed301_eddsa.Base.{[], ◌∷◌}
use ed301_eddsa.Base.Bytes.{Bytes}
use ed301_eddsa.Downstream.Hex.{to_hex}
use ed301_eddsa.Libraries.Bigint.{Bigint}
use ed301_eddsa.Libraries.Xof.{Xof}
use ed301_eddsa.Libraries.Reference.{plain_bigint}
use ed301_eddsa.Libraries.Reference.Digests.{recorded_xof}

instance abbrev pub backend : Bigint
backend = plain_bigint

instance abbrev pub hasher : Xof
hasher = recorded_xof

abbrev pub seed : Bytes
seed =
    0x25 ∷ 0x24 ∷ 0x23 ∷ 0x22 ∷ 0x21 ∷ 0x20 ∷ 0x1f ∷ 0x1e ∷ 0x1d ∷ 0x1c ∷ 0x1b ∷ 0x1a ∷ 0x19 ∷ 0x18
    ∷ 0x17 ∷ 0x16 ∷ 0x15 ∷ 0x14 ∷ 0x13 ∷ 0x12 ∷ 0x11 ∷ 0x10 ∷ 0xf ∷ 0xe ∷ 0xd ∷ 0xc ∷ 0xb ∷ 0xa
    ∷ 0x9 ∷ 0x8 ∷ 0x7 ∷ 0x6 ∷ 0x5 ∷ 0x4 ∷ 0x3 ∷ 0x2 ∷ 0x1 ∷ 0x0 ∷ []

abbrev pub message : Bytes
message =
    0x45 ∷ 0x64 ∷ 0x33 ∷ 0x30 ∷ 0x31 ∷ 0x20 ∷ 0x50 ∷ 0x75 ∷ 0x72 ∷ 0x65 ∷ 0x45 ∷ 0x64 ∷ 0x44 ∷ 0x53
    ∷ 0x41 ∷ 0x20 ∷ 0x64 ∷ 0x72 ∷ 0x61 ∷ 0x66 ∷ 0x74 ∷ 0x20 ∷ 0x30 ∷ 0x30 ∷ []

abbrev pub public_key : Bytes
public_key =
    0xbc ∷ 0xfe ∷ 0x83 ∷ 0x19 ∷ 0x3c ∷ 0xfc ∷ 0x2f ∷ 0x5e ∷ 0x61 ∷ 0xc8 ∷ 0x34 ∷ 0x7c ∷ 0xe9 ∷ 0xa
    ∷ 0xa7 ∷ 0x42 ∷ 0x5d ∷ 0xa3 ∷ 0x7c ∷ 0x60 ∷ 0xdf ∷ 0x4b ∷ 0xa4 ∷ 0xe8 ∷ 0x3f ∷ 0x12 ∷ 0x8b
    ∷ 0x6e ∷ 0x38 ∷ 0xe4 ∷ 0x53 ∷ 0x47 ∷ 0xc9 ∷ 0x49 ∷ 0xd ∷ 0xe9 ∷ 0x77 ∷ 0x96 ∷ []

abbrev pub signature : Bytes
signature =
    0xe7 ∷ 0x38 ∷ 0xff ∷ 0xf2 ∷ 0x39 ∷ 0x20 ∷ 0x8e ∷ 0x3b ∷ 0x34 ∷ 0x7a ∷ 0xe4 ∷ 0xfe ∷ 0x1c ∷ 0xd2
    ∷ 0x78 ∷ 0x7a ∷ 0xe0 ∷ 0x75 ∷ 0x67 ∷ 0x20 ∷ 0xed ∷ 0x82 ∷ 0xcd ∷ 0xf6 ∷ 0x4f ∷ 0xbe ∷ 0x18
    ∷ 0x9e ∷ 0x41 ∷ 0x1d ∷ 0x11 ∷ 0x7f ∷ 0xc5 ∷ 0xcd ∷ 0x4a ∷ 0xbc ∷ 0x4 ∷ 0x8e ∷ 0x6b ∷ 0x97 ∷ 0x56
    ∷ 0x54 ∷ 0x2b ∷ 0x6a ∷ 0x4d ∷ 0x79 ∷ 0x54 ∷ 0xd ∷ 0xaf ∷ 0x41 ∷ 0xdb ∷ 0x8f ∷ 0xc3 ∷ 0x35 ∷ 0xba
    ∷ 0x2a ∷ 0xbd ∷ 0xfc ∷ 0xb9 ∷ 0xb5 ∷ 0xd2 ∷ 0x72 ∷ 0xfa ∷ 0x3c ∷ 0xd1 ∷ 0x5a ∷ 0x1 ∷ 0x8e ∷ 0x7
    ∷ 0x83 ∷ 0x6 ∷ 0x28 ∷ 0xca ∷ 0x74 ∷ 0x4c ∷ 0x3 ∷ []

-- A string of a wrong length for everything.
abbrev pub short : Bytes
short = 1 ∷ 2 ∷ []

-- The hexadecimal constants of integration/downstream-workspace/src/main.rs, which are the first
-- known answer.
abbrev pub seed_hex : Bytes
seed_hex = to_hex (
    0x0 ∷ 0x1 ∷ 0x2 ∷ 0x3 ∷ 0x4 ∷ 0x5 ∷ 0x6 ∷ 0x7 ∷ 0x8 ∷ 0x9 ∷ 0xa ∷ 0xb ∷ 0xc ∷ 0xd ∷ 0xe ∷ 0xf
    ∷ 0x10 ∷ 0x11 ∷ 0x12 ∷ 0x13 ∷ 0x14 ∷ 0x15 ∷ 0x16 ∷ 0x17 ∷ 0x18 ∷ 0x19 ∷ 0x1a ∷ 0x1b ∷ 0x1c
    ∷ 0x1d ∷ 0x1e ∷ 0x1f ∷ 0x20 ∷ 0x21 ∷ 0x22 ∷ 0x23 ∷ 0x24 ∷ 0x25 ∷ [])

abbrev pub public_key_hex : Bytes
public_key_hex = to_hex (
    0x8c ∷ 0xad ∷ 0x7 ∷ 0xb4 ∷ 0xf9 ∷ 0xa3 ∷ 0x8 ∷ 0x52 ∷ 0x3a ∷ 0x8d ∷ 0xf9 ∷ 0xbe ∷ 0xe2 ∷ 0x2a
    ∷ 0x72 ∷ 0x1b ∷ 0x8f ∷ 0xf5 ∷ 0xe5 ∷ 0x97 ∷ 0xc1 ∷ 0xce ∷ 0x47 ∷ 0xe3 ∷ 0x9d ∷ 0xf6 ∷ 0x7f
    ∷ 0x97 ∷ 0xa4 ∷ 0x75 ∷ 0xfd ∷ 0x1 ∷ 0x80 ∷ 0x13 ∷ 0xfc ∷ 0x18 ∷ 0x88 ∷ 0x90 ∷ [])

abbrev pub signature_hex : Bytes
signature_hex = to_hex (
    0x29 ∷ 0x64 ∷ 0xa4 ∷ 0xe2 ∷ 0x2d ∷ 0x5e ∷ 0xd6 ∷ 0xe4 ∷ 0x1a ∷ 0xd5 ∷ 0xd5 ∷ 0xbb ∷ 0xfd ∷ 0xf4
    ∷ 0xd5 ∷ 0x18 ∷ 0xbb ∷ 0x6 ∷ 0x7b ∷ 0x89 ∷ 0x82 ∷ 0xf3 ∷ 0xf8 ∷ 0xf5 ∷ 0x90 ∷ 0xd ∷ 0x7 ∷ 0x4a
    ∷ 0x6b ∷ 0xee ∷ 0x97 ∷ 0x56 ∷ 0x7b ∷ 0x95 ∷ 0x81 ∷ 0x3 ∷ 0x36 ∷ 0x94 ∷ 0x4d ∷ 0xfd ∷ 0xce ∷ 0x74
    ∷ 0xdd ∷ 0x88 ∷ 0x9e ∷ 0xe9 ∷ 0xd9 ∷ 0xdb ∷ 0x3c ∷ 0x10 ∷ 0xbd ∷ 0x1f ∷ 0x9d ∷ 0xa0 ∷ 0x79
    ∷ 0x9b ∷ 0xad ∷ 0x50 ∷ 0x1c ∷ 0x8f ∷ 0x3e ∷ 0x92 ∷ 0x60 ∷ 0x2 ∷ 0xa ∷ 0xd6 ∷ 0x4f ∷ 0xa6 ∷ 0xb0
    ∷ 0x2a ∷ 0x8c ∷ 0x27 ∷ 0xce ∷ 0x83 ∷ 0x7d ∷ 0x0 ∷ [])
