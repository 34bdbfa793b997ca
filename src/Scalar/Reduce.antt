-- ===== src/Scalar/Reduce.antt =====
-- scalar.rs: the reducers of a pruned secret and of a hash.
use ed301_eddsa.Base.{ℕ, zero, suc, ◌+◌, ◌*◌, ◌%◌, ◌^◌, ◌≤◌, ◌<◌, arith, List, [], ◌∷◌}
use ed301_eddsa.Base.{◌≡◌, refl, sym, ap, ◌∙◌}
use ed301_eddsa.Base.{length, drop, get_or}
use ed301_eddsa.Base.Bytes.{Bytes, le_value, IsArray}
use ed301_eddsa.Base.Words.{words_value}
use ed301_eddsa.Parameters.{scalar_modulus, scalar_bytes, hash_bytes}
use ed301_eddsa.Libraries.Bigint.{Bigint}
use ed301_eddsa.Libraries.Montgomery.Residues.{new-add, new-mul, zero-new}
use ed301_eddsa.Scalar.{
  radix_64, reduce_from, reduce_words, reduce_pruned_le, reduce_hash_le, pruned_words, hash_words,
}
use ed301_eddsa.Scalar.Words.{pruned_words-value, hash_words-value}

-- The value of the words from an index on.
drop-value :
    (ws : List ℕ) (i : ℕ)
    → i < length ws
    → words_value (drop i ws) ≡ get_or ws i 0 + 2 ^ 64 * words_value (drop (suc i) ws)
drop-value [] i h = absurd (omega arith)
drop-value (w ∷ ws) zero h = refl
drop-value (w ∷ ws) (suc i) h = drop-value ws i (omega arith)

drop-length-value : (ws : List ℕ) → words_value (drop (length ws) ws) ≡ 0
drop-length-value [] = refl
drop-length-value (w ∷ ws) = drop-length-value ws

module _ ⦃b : Bigint⦄ where
  open b.scalar_form use {new, retrieve}

  radix_64_lem : radix_64 ≡ new (2 ^ 64)
  unfolding radix_64
  radix_64_lem = ap new (b.from_words_lem (0 ∷ 1 ∷ 0 ∷ 0 ∷ 0 ∷ []) refl (omega arith))

  -- Horner's rule: above an index the accumulator holds the value of the words passed.
  reduce_from_lem :
      (ws : List ℕ) (i : ℕ)
      → i ≤ length ws
      → reduce_from ws i (new (words_value (drop i ws))) ≡ new (words_value ws)
  unfolding reduce_from
  reduce_from_lem ws zero h = refl
  reduce_from_lem ws (suc i) h =
      ap (reduce_from ws i) (
        ap
          (λ t.
            b.scalar_form.add (b.scalar_form.mul (new (words_value (drop (suc i) ws))) t)
              (new (get_or ws i 0)))
          radix_64_lem
        ∙ ap (λ t. b.scalar_form.add t (new (get_or ws i 0))) (new-mul b.scalar_form.base _ _)
        ∙ new-add b.scalar_form.base _ _
        ∙ ap new (omega (arith, drop-value ws i (omega arith))))
      ∙ reduce_from_lem ws i (omega arith)

  -- The fixed word schedule is reduction modulo L, for any number of words.
  pub reduce_words_lem : (ws : List ℕ) → reduce_words ws ≡ words_value ws % scalar_modulus
  unfolding reduce_words
  reduce_words_lem ws =
      ap retrieve (
        ap (reduce_from ws (length ws))
          (zero-new b.scalar_form.base ∙ ap new (sym (drop-length-value ws)))
        ∙ reduce_from_lem ws (length ws) (omega arith))
      ∙ b.scalar_form.retrieve-new (words_value ws)

  -- On 38 bytes the five-word schedule is the little-endian value modulo L.
  pub reduce_pruned_le_lem :
      (bs : Bytes) → IsArray scalar_bytes bs → reduce_pruned_le bs ≡ le_value bs % scalar_modulus
  unfolding reduce_pruned_le
  reduce_pruned_le_lem bs h =
      reduce_words_lem (pruned_words bs) ∙ ap (λ t. t % scalar_modulus) (pruned_words-value bs h.0)

  -- On 76 bytes the ten-word schedule is the little-endian value modulo L.
  pub reduce_hash_le_lem :
      (bs : Bytes) → IsArray hash_bytes bs → reduce_hash_le bs ≡ le_value bs % scalar_modulus
  unfolding reduce_hash_le
  reduce_hash_le_lem bs h =
      reduce_words_lem (hash_words bs) ∙ ap (λ t. t % scalar_modulus) (hash_words-value bs h.0)
