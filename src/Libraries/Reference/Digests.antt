-- ===== src/Libraries/Reference/Digests.antt =====
-- A hash that meets the interface of `Shake256`: it absorbs by appending, and answers with the
-- recorded SHAKE256 digests of the six strings that the first two known answers hash, and with zeros
-- for any other string.
use ed301_eddsa.Base.{ℕ, ◌≡◌, refl, ap, List, [], ◌∷◌, ◌++◌, length, ◌==◌, ◌&&◌, if◌then◌else◌}
use ed301_eddsa.Base.Bytes.{Bytes, le_value, le_bytes, length-le_bytes, le_bytes-IsBytes}
use ed301_eddsa.Base.Copies.{append-nil_eq}
use ed301_eddsa.Libraries.Xof.{Xof}

-- The length and the value of a string, and the value of its digest.
abbrev Row : Type 0
Row = (ℕ × ℕ) × ℕ

unfoldable pub digest_in : List Row → Bytes → ℕ
digest_in [] message = 0
digest_in (((n, v), digest) ∷ rows) message =
    let rest = digest_in rows message in
    if (length message == n) && (le_value message == v) then digest else rest

abbrev pub recorded : List Row
recorded =
    (
      (38, 0x102030405060708090a0b0c0d0e0f101112131415161718191a1b1c1d1e1f202122232425),
      0x481abbd97b5a62228c8f34f6583c6e3686d07ef9fa6d88a69efe43223df51d9c2a9f43bc24e1d7390093a6314aa8bda22bc83a97a0cb869b334b51578699221ce2e575680348d6ec1ef5c953,
    )
    ∷ (
      (
        62,
        0x303020746661726420415344644565727550203130336445481abbd97b5a62228c8f34f6583c6e3686d07ef9fa6d88a69efe43223df51d9c2a9f43bc24e1,
      ),
      0x521adb54a292d3b7863f1a10e8e6f0fc53f4e47b0a89314b858daefdf5fc638db64bec9cf793da10083ca3a52abc65016e2101d20a601d7e3f70db15b73517db6b5b1dfaf75e2cc5e5d1bfc7,
    )
    ∷ (
      (
        100,
        0x3030207466617264204153446445657275502031303364459677e90d49c94753e4386e8b123fe8a44bdf607ca35d42a70ae97c34c8615e2ffc3c1983febc8e04bc4acdc57f111d419e18be4ff6cd82ed206775e07a78d21cfee47a343b8e2039f2ff38e7,
      ),
      0x6ae02183c7d4a0b3ccdc9feecb1484f3b8b777b1d1fbde0186152db4cd435d337793cab613c449e07e3b1565f41532f76c0cb21e7bd0b3590bb970446ec7170283851bbdbb556daf3eae8528,
    )
    ∷ (
      (38, 0x2524232221201f1e1d1c1b1a191817161514131211100f0e0d0c0b0a09080706050403020100),
      0xb519fb3736376c28ef8d9ef8b401c7490591b6e16b9e1f02da588aab1af58dfc608f12fdf707e9a142253c8103fc84d7e63f8834d3cd921f67eedd595b477d13eb99b23b0da7816b32136d69,
    )
    ∷ (
      (38, 0xb519fb3736376c28ef8d9ef8b401c7490591b6e16b9e1f02da588aab1af58dfc608f12fdf707),
      0xe48422df46c18b70119307d9c0e27542535050c4ece639b61de9c32a4a42bf82374fe8f049c054ad42efff25879a9e5f5d0efa575d54a5b784d1c9f785f7709816622d464764ac293f59ad24,
    )
    ∷ (
      (
        76,
        0x908818fc138001fd75a4977ff69de347cec197e5f58f1b722ae2bef98d3a5208a3f9b407ad8c94360381957b5697ee6b4a070d90f5f8f382897b06bb18d5f4fdbbd5d51ae4d65e2de2a46429,
      ),
      0x4f91ab4b36ca50f570307f932c706bedc88cfec5fcbed002ed894a80f0984d31e07e016dfaa66d498e233d69e93b25c9cd46b161a51d02d1d6beb9fb0d67616d29d0392413c4aee50c556650,
    )
    ∷ []

pub append_assoc : (xs ys zs : Bytes) → (xs ++ ys) ++ zs ≡ xs ++ (ys ++ zs)
append_assoc [] ys zs = refl
append_assoc (x ∷ xs) ys zs = ap (◌∷◌ x) (append_assoc xs ys zs)

abbrev pub recorded_xof : Xof
recorded_xof = record {
  State = Bytes;
  default_state = [];
  update = λ state part. state ++ part;
  finalize_read = λ state n. le_bytes n (digest_in recorded state);
  update_nothing = append-nil_eq;
  update-append = append_assoc;
  finalize_read-IsArray = λ state n.
      (length-le_bytes n (digest_in recorded state), le_bytes-IsBytes n (digest_in recorded state));
}
