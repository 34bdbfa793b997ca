-- ===== src/Scalar/Codec.antt =====
-- scalar.rs: strict decoding and the writer.
use native.Mathlib.Nat.{pow-suc, div-div-eq-div-mul}
use mathlib.Core.List.{append_assoc}
use ed301_eddsa.Base.{ℕ, zero, suc, ◌+◌, ◌-◌, ◌*◌, ◌/◌, ◌%◌, ◌^◌, ◌≤◌, ◌<◌, arith, List, ◌++◌}
use ed301_eddsa.Base.{
  ◌≡◌, ◌↔◌, refl, sym, ap, ap₂, ◌∙◌, none, some, true, false, if◌then◌else◌, ltb, ltb→lt, lt→ltb,
}
use ed301_eddsa.Base.{length, take, drop, replicate, get_or, length-drop, eq-nil_of_length}
use ed301_eddsa.Base.{ct_option, ct_option-some, ct_option-none}
use ed301_eddsa.Base.Bytes.{
  Bytes, IsArray, le_value, le_bytes, length-le_bytes, le_bytes-zero, le_bytes-IsBytes,
  le_value-le_bytes, le_bytes-le_value, take-le_bytes, le_bytes-mod, le_bytes-add, word_pow,
}
use ed301_eddsa.Base.Words.{words}
use ed301_eddsa.Base.Copies.{copy_into, copy_into_next, append-nil_eq}
use ed301_eddsa.Parameters.{scalar_modulus, scalar_bytes}
use ed301_eddsa.Libraries.Bigint.{Bigint}
use ed301_eddsa.Field.Codec.{widened_lem}
use ed301_eddsa.Scalar.{
  Scalar, write_words, from_canonical_bytes, write_canonical_bytes, canonical_bytes, uint_from_le38,
}

get_or-words : (n i x : ℕ) → i < n → get_or (words n x) i 0 ≡ x / (2 ^ 64) ^ i % 2 ^ 64
unfolding words
get_or-words zero i x h = absurd (omega arith)
get_or-words (suc n) zero x h = ap (λ t. t % 2 ^ 64) {x = x} {y = x / 1} (omega arith)
get_or-words (suc n) (suc i) x h =
    get_or-words n i (x / 2 ^ 64) (omega arith)
    ∙ ap (λ t. t % 2 ^ 64)
        (div-div-eq-div-mul x (2 ^ 64) ((2 ^ 64) ^ i)
          ∙ ap (λ t. x / t) {x = 2 ^ 64 * (2 ^ 64) ^ i} (omega (arith, pow-suc (2 ^ 64) i)))

-- One round of the writer appends the next bytes of the number.
write_round :
    (x i taken : ℕ) (rest : Bytes)
    → i < 5
    → taken ≤ 8
    → copy_into
        (8 * i)
        (take taken (le_bytes 8 (get_or (words 5 x) i 0)))
        (le_bytes (8 * i) x ++ rest)
      ≡ le_bytes (8 * i + taken) x ++ drop taken rest
write_round x i taken rest h k =
    ap (λ t. copy_into (8 * i) t (le_bytes (8 * i) x ++ rest)) piece
    ∙ copy_into_next (le_bytes (8 * i) x) rest (le_bytes taken y) (8 * i)
        (length-le_bytes (8 * i) x)
    ∙ sym (append_assoc (le_bytes (8 * i) x) (le_bytes taken y) _)
    ∙ ap₂ (λ s t. s ++ drop t rest) (sym (le_bytes-add (8 * i) taken x)) (length-le_bytes taken y)
  where
    y : ℕ
    y = x / 256 ^ (8 * i)

    piece : take taken (le_bytes 8 (get_or (words 5 x) i 0)) ≡ le_bytes taken y
    piece =
        ap (λ t. take taken (le_bytes 8 t))
          (get_or-words 5 i x h ∙ ap (λ t. x / t % 2 ^ 64) (sym (word_pow i)))
        ∙ ap (take taken) (le_bytes-mod 8 y)
        ∙ ap (λ t. take taken (le_bytes t y)) {x = 8} {y = taken + (8 - taken)} (omega arith)
        ∙ take-le_bytes taken (8 - taken) y

write_words-suc :
    (fuel : ℕ) (ws : List ℕ) (i offset taken : ℕ) (output : Bytes)
    → ltb offset scalar_bytes ≡ true
    → (if ltb (scalar_bytes - offset) 8 then scalar_bytes - offset else 8) ≡ taken
    → write_words (suc fuel) ws i offset output
      ≡ write_words fuel ws
          (i + 1)
          (offset + taken)
          (copy_into offset (take taken (le_bytes 8 (get_or ws i 0))) output)
unfolding write_words le_bytes
write_words-suc fuel ws i offset taken output h e = rw (h, ← e)

-- The five rounds write the 38 low bytes over an array of that length.
write_words_lem :
    (x : ℕ) (output : Bytes)
    → length output ≡ 38
    → write_words 5 (words 5 x) 0 0 output ≡ le_bytes 38 x
write_words_lem x output h =
    ap (λ t. write_words 5 ws 0 0 (t ++ output)) (sym (le_bytes-zero x))
    ∙ write_words-suc 4 ws 0 0 8 (le_bytes 0 x ++ output) refl refl
    ∙ ap (write_words 4 ws 1 8) (round 0 8 output (omega arith) (omega arith))
    ∙ write_words-suc 3 ws 1 8 8 _ refl refl
    ∙ ap (write_words 3 ws 2 16) (round 1 8 (drop 8 output) (omega arith) (omega arith))
    ∙ write_words-suc 2 ws 2 16 8 _ refl refl
    ∙ ap (write_words 2 ws 3 24) (round 2 8 (drop 8 (drop 8 output)) (omega arith) (omega arith))
    ∙ write_words-suc 1 ws 3 24 8 _ refl refl
    ∙ ap (write_words 1 ws 4 32)
        (round 3 8 (drop 8 (drop 8 (drop 8 output))) (omega arith) (omega arith))
    ∙ write_words-suc 0 ws 4 32 6 _ refl refl
    ∙ ap (write_words 0 ws 5 38)
        (round 4 6 (drop 8 (drop 8 (drop 8 (drop 8 output)))) (omega arith) (omega arith))
    ∙ unfold write_words in
      ap (◌++◌ (le_bytes 38 x)) (eq-nil_of_length _ (omega (arith, left)))
      ∙ append-nil_eq (le_bytes 38 x)
  where
    ws : List ℕ
    ws = words 5 x

    left : length (drop 6 (drop 8 (drop 8 (drop 8 (drop 8 output))))) ≡ 0
    left = omega (
      arith,
      length-drop 8 output,
      length-drop 8 (drop 8 output),
      length-drop 8 (drop 8 (drop 8 output)),
      length-drop 8 (drop 8 (drop 8 (drop 8 output))),
      length-drop 6 (drop 8 (drop 8 (drop 8 (drop 8 output)))),
    )

    round :
        (i taken : ℕ) (rest : Bytes)
        → i < 5
        → taken ≤ 8
        → copy_into
            (8 * i)
            (take taken (le_bytes 8 (get_or (words 5 x) i 0)))
            (le_bytes (8 * i) x ++ rest)
          ≡ le_bytes (8 * i + taken) x ++ drop taken rest
    round = write_round x

module _ ⦃b : Bigint⦄ where
  -- Decoding reads the little-endian number, and accepts exactly the numbers below L.
  pub from_canonical_bytes_lem :
      (bs : Bytes)
      → IsArray scalar_bytes bs
      → from_canonical_bytes bs ≡ ct_option (le_value bs) (ltb (le_value bs) scalar_modulus)
  unfolding from_canonical_bytes uint_from_le38
  from_canonical_bytes_lem bs h =
      let (wide, e) = widened_lem bs h in
      ap (λ n. ct_option n (b.ct_lt n scalar_modulus)) (b.from_le_slice_lem _ wide ∙ e)
      ∙ ap (ct_option (le_value bs)) (b.ct_lt_lem (le_value bs) scalar_modulus)

  -- The writer fills an array of 38 bytes, whatever it held, with the little-endian bytes.
  pub write_canonical_bytes_lem :
      (s : Scalar) (output : Bytes)
      → s < scalar_modulus
      → length output ≡ scalar_bytes
      → write_canonical_bytes s output ≡ le_bytes scalar_bytes s
  unfolding write_canonical_bytes
  write_canonical_bytes_lem s output h k =
      ap (λ ws. write_words 5 ws 0 0 output) (b.to_words_lem s (omega arith))
      ∙ write_words_lem s output k

  -- Decoding succeeds only on what the writer writes of the result, which is below L, and refuses
  -- only numbers from L on.
  pub write-from_canonical_bytes :
      (bs output : Bytes)
      → IsArray scalar_bytes bs
      → length output ≡ scalar_bytes
      → ((s : Scalar)
          → from_canonical_bytes bs ≡ some s
          → (s < scalar_modulus) × (write_canonical_bytes s output ≡ bs))
        × (from_canonical_bytes bs ≡ none → scalar_modulus ≤ le_value bs)
  write-from_canonical_bytes bs output h k = (
    λ s e.
        let (fits, same) = ct_option-some _ _ (sym (from_canonical_bytes_lem bs h) ∙ e) in
        let below : s < scalar_modulus = rw (← same) (ltb→lt _ _ fits) in
        (
          below,
          write_canonical_bytes_lem s output below k
              ∙ ap₂ le_bytes (sym h.0) (sym same)
              ∙ le_bytes-le_value bs h.1,
        ),
    λ e. not_below (ct_option-none _ _ (sym (from_canonical_bytes_lem bs h) ∙ e)),
  )
    where
      not_below : ltb (le_value bs) scalar_modulus ≡ false → scalar_modulus ≤ le_value bs
      not_below e = ground arith

  -- Every scalar below L decodes from what is written of it.
  pub from_canonical_bytes-write :
      (s : Scalar) (output : Bytes)
      → s < scalar_modulus
      → length output ≡ scalar_bytes
      → from_canonical_bytes (write_canonical_bytes s output) ≡ some s
  from_canonical_bytes-write s output h k =
      ap from_canonical_bytes (write_canonical_bytes_lem s output h k)
      ∙ from_canonical_bytes_lem (le_bytes scalar_bytes s)
          (length-le_bytes scalar_bytes s, le_bytes-IsBytes scalar_bytes s)
      ∙ ap (λ n. ct_option n (ltb n scalar_modulus))
          (le_value-le_bytes scalar_bytes s (omega arith))
      ∙ ap (ct_option s) (lt→ltb _ _ h)

  -- A string of 38 bytes decodes to a scalar exactly if the scalar is below L and the string is
  -- what the writer writes of it.
  pub scalar_decoding_iff :
      (bs : Bytes) (s : Scalar)
      → IsArray scalar_bytes bs
      → (from_canonical_bytes bs ≡ some s) ↔ ((s < scalar_modulus) × (canonical_bytes s ≡ bs))
  unfolding canonical_bytes
  scalar_decoding_iff bs s h = (
    (write-from_canonical_bytes bs (replicate scalar_bytes 0) h refl).0 s,
    λ (below, same).
        ap from_canonical_bytes (sym same)
        ∙ from_canonical_bytes-write s (replicate scalar_bytes 0) below refl,
  )
