-- ===== src/Signature/Expanded/Prune.antt =====
-- signature.rs: the clamping in `ExpandedSecret::derive`.
use ed301_eddsa.Base.{ℕ, ◌+◌, ◌*◌, ◌/◌, ◌%◌, ◌^◌, ◌≤◌, ◌<◌, arith, [], ◌∷◌}
use ed301_eddsa.Base.{◌≡◌, ap, ◌∙◌, length, take, drop, get_or, set, bit_and, bit_or}
use ed301_eddsa.Base.{length-take, length-drop, length-set}
use ed301_eddsa.Base.Bytes.{Bytes, IsArray, le_value, le_value-lt, IsBytes-take}
use ed301_eddsa.Base.Arrays.{get_or-set, set-IsBytes, get_or-lt, value-last, take-set}
use ed301_eddsa.Base.Bits.{bit_and_0xfc, bit_and_0x0f, bit_or_0x10}
use ed301_eddsa.Base.Copies.{copy_into_all}
use ed301_eddsa.Parameters.{field_bytes, hash_bytes}
use ed301_eddsa.Signature.Expanded.{prune, prefix_of}

-- The bytes that `derive` clamps, without the arrays it copies through.
clamped : Bytes → Bytes
clamped bs =
    let low = set bs 0 (bit_and (get_or bs 0 0) 0xfc) in
    set low 37 (bit_or (bit_and (get_or low 37 0) 0x0f) 0x10)

clamped-value :
    (bs : Bytes) → IsArray 38 bs → le_value (clamped bs) ≡ 2 ^ 300 + le_value bs % 2 ^ 300 / 4 * 4
unfolding clamped
clamped-value [] (n, h) = absurd (omega arith)
clamped-value (b ∷ bs) (n, h) = omega (
  arith,
  bit_and_0xfc b h.0,
  value-last 36 bs (omega arith),
  value-last 36 (set bs 36 last) (omega (arith, length-set bs 36 last)),
  ap le_value (take-set 36 bs last),
  get_or-set bs 36 last (omega arith),
  bit_or_0x10 (bit_and (get_or bs 36 0) 0x0f) below narrow,
  bit_and_0x0f (get_or bs 36 0) (get_or-lt bs 36 h.1),
  le_value-lt (take 36 bs) (IsBytes-take 36 bs h.1),
  ap (λ t. 256 ^ t) {x = length (take 36 bs)} {y = 36} (omega (arith, length-take 36 bs)),
)
  where
    narrow : bit_and (get_or bs 36 0) 0x0f < 16
    narrow = omega (arith, bit_and_0x0f (get_or bs 36 0) (get_or-lt bs 36 h.1))

    below : bit_and (get_or bs 36 0) 0x0f < 256
    below = omega (arith, narrow)

    last : ℕ
    last = bit_or (bit_and (get_or bs 36 0) 0x0f) 0x10

copied_take : (hash : Bytes) → length hash ≡ 76 → prune hash ≡ clamped (take 38 hash)
unfolding prune clamped
copied_take hash n =
    ap clamped (copy_into_all (take 38 hash) 38 (omega (arith, length-take 38 hash)))

clamped-IsArray : (bs : Bytes) → IsArray 38 bs → IsArray 38 (clamped bs)
unfolding clamped
clamped-IsArray bs (n, h) = (
  length-set (set bs 0 first) 37 _ ∙ length-set bs 0 first ∙ n,
  set-IsBytes _ 37 _ high (set-IsBytes bs 0 first low h),
)
  where
    first : ℕ
    first = bit_and (get_or bs 0 0) 0xfc

    low : first < 256
    low = omega (arith, bit_and_0xfc (get_or bs 0 0) (get_or-lt bs 0 h), get_or-lt bs 0 h)

    last : ℕ
    last = get_or (set bs 0 first) 37 0

    last-lt : last < 256
    last-lt = get_or-lt (set bs 0 first) 37 (set-IsBytes bs 0 first low h)

    narrow : bit_and last 0x0f < 16
    narrow = omega (arith, bit_and_0x0f last last-lt)

    high : bit_or (bit_and last 0x0f) 0x10 < 256
    high = omega (arith, narrow, bit_or_0x10 (bit_and last 0x0f) (omega (arith, narrow)) narrow)

IsArray-take38 : (hash : Bytes) → IsArray hash_bytes hash → IsArray 38 (take 38 hash)
IsArray-take38 hash (n, h) = (omega (arith, length-take 38 hash), IsBytes-take 38 hash h)

-- The clamping of a hash of 76 bytes gives 38 bytes whose value is that of the first half with
-- bits 0 and 1 cleared, bit 300 set and the bits above cleared: a multiple of 4 from 2^300 to
-- below 2^301.
pub prune_lem :
    (hash : Bytes)
    → IsArray hash_bytes hash
    → IsArray field_bytes (prune hash)
      × (le_value (prune hash) ≡ 2 ^ 300 + le_value (take field_bytes hash) % 2 ^ 300 / 4 * 4)
      × (2 ^ 300 ≤ le_value (prune hash))
      × (le_value (prune hash) < 2 ^ 301)
      × (le_value (prune hash) % 4 ≡ 0)
prune_lem hash k =
    let value =
      ap le_value (copied_take hash k.0) ∙ clamped-value (take 38 hash) (IsArray-take38 hash k) in
    let array : IsArray 38 (prune hash) =
      rw (copied_take hash k.0) (clamped-IsArray (take 38 hash) (IsArray-take38 hash k)) in
    (array, value, omega (arith, value), omega (arith, value), omega (arith, value))

-- The prefix is the second half of the hash.
pub prefix_of_lem :
    (hash : Bytes) → length hash ≡ hash_bytes → prefix_of hash ≡ drop field_bytes hash
unfolding prefix_of
prefix_of_lem hash n = copy_into_all (drop 38 hash) 38 (omega (arith, length-drop 38 hash))
