-- ===== src/Scalar/Words.antt =====
-- scalar.rs: the words that the reducers read.
use ed301_eddsa.Base.{ℕ, zero, suc, ◌+◌, ◌-◌, ◌*◌, ◌^◌, ◌≤◌, arith, List, [], ◌∷◌}
use ed301_eddsa.Base.{◌≡◌, refl, sym, ap, ◌∙◌}
use ed301_eddsa.Base.{length, take, drop, replicate, take-append-drop, length-take, length-drop}
use ed301_eddsa.Base.Bytes.{Bytes, le_value, le_value-append, le_value-replicate_zero}
use ed301_eddsa.Base.Copies.{copy_into, copy_into_zeros}
use ed301_eddsa.Base.Words.{words_value}
use ed301_eddsa.Scalar.{read_words, pruned_words, hash_words}

drop-nil : (n : ℕ) → drop {A = ℕ} n [] ≡ []
drop-nil zero = refl
drop-nil (suc n) = refl

drop-drop : (n k : ℕ) (xs : Bytes) → drop n (drop k xs) ≡ drop (k + n) xs
drop-drop n zero xs = ap (λ t. drop t xs) {x = n} {y = zero + n} (omega arith)
drop-drop n (suc k) [] = drop-nil n ∙ sym (drop-nil (suc k + n))
drop-drop n (suc k) (x ∷ xs) =
    drop-drop n k xs ∙ ap (λ t. drop t (x ∷ xs)) {x = suc (k + n)} {y = suc k + n} (omega arith)

take_all : (n : ℕ) (xs : Bytes) → length xs ≤ n → take n xs ≡ xs
take_all zero [] h = refl
take_all zero (x ∷ xs) h = absurd (omega arith)
take_all (suc n) [] h = refl
take_all (suc n) (x ∷ xs) h = ap (◌∷◌ x) (take_all n xs (omega arith))

-- From an offset on, eight bytes a word, and a last word of what is left.
chunks : ℕ → ℕ → Bytes → List ℕ
chunks zero offset bs = le_value (drop offset bs) ∷ []
chunks (suc n) offset bs = le_value (take 8 (drop offset bs)) ∷ chunks n (offset + 8) bs

chunks-value :
    (n offset : ℕ) (bs : Bytes)
    → offset + 8 * n ≤ length bs
    → words_value (chunks n offset bs) ≡ le_value (drop offset bs)
unfolding chunks
chunks-value zero offset bs h = omega arith
chunks-value (suc n) offset bs h = omega (
  arith,
  chunks-value n (offset + 8) bs (omega arith),
  ap le_value (drop-drop 8 offset bs),
  split (drop offset bs) (omega (arith, length-drop offset bs)),
)
  where
    split :
        (xs : Bytes)
        → 8 ≤ length xs
        → le_value (take 8 xs) + 2 ^ 64 * le_value (drop 8 xs) ≡ le_value xs
    split xs k =
        ap (λ t. le_value (take 8 xs) + t * le_value (drop 8 xs)) {x = 2 ^ 64}
          {y = 256 ^ length (take 8 xs)}
          (ap (λ t. 256 ^ t) {x = 8} (omega (arith, length-take 8 xs)))
        ∙ sym (le_value-append (take 8 xs) (drop 8 xs))
        ∙ ap le_value (take-append-drop 8 xs)

padded-value : (src : Bytes) (n : ℕ) → le_value (copy_into 0 src (replicate n 0)) ≡ le_value src
padded-value src n =
    ap le_value (copy_into_zeros src n)
    ∙ le_value-append src (replicate (n - length src) 0)
    ∙ ap (λ t. le_value src + 256 ^ length src * t) (le_value-replicate_zero (n - length src))
    ∙ omega arith

padded_word :
    (src : Bytes) → le_value (copy_into 0 src (0 ∷ 0 ∷ 0 ∷ 0 ∷ 0 ∷ 0 ∷ 0 ∷ 0 ∷ [])) ≡ le_value src
padded_word src = padded-value src 8

-- The last word is all that is left of the bytes.
last_word :
    (n offset : ℕ) (bs : Bytes)
    → length bs ≡ offset + n
    → le_value (take n (drop offset bs)) ≡ le_value (drop offset bs)
last_word n offset bs h =
    ap le_value (take_all n (drop offset bs) (omega (arith, length-drop offset bs)))

pruned_words-chunks : (bs : Bytes) → length bs ≡ 38 → pruned_words bs ≡ chunks 4 0 bs
unfolding pruned_words chunks read_words
pruned_words-chunks bs h = simp (padded_word, last_word 6 32 bs h)

hash_words-chunks : (bs : Bytes) → length bs ≡ 76 → hash_words bs ≡ chunks 9 0 bs
unfolding hash_words chunks read_words
hash_words-chunks bs h = simp (padded_word, last_word 4 72 bs h)

-- The five words of a pruned secret stand for its little-endian value.
pub pruned_words-value : (bs : Bytes) → length bs ≡ 38 → words_value (pruned_words bs) ≡ le_value bs
pruned_words-value bs h =
    ap words_value (pruned_words-chunks bs h) ∙ chunks-value 4 0 bs (omega arith)

-- The ten words of a hash stand for its little-endian value.
pub hash_words-value : (bs : Bytes) → length bs ≡ 76 → words_value (hash_words bs) ≡ le_value bs
hash_words-value bs h = ap words_value (hash_words-chunks bs h) ∙ chunks-value 9 0 bs (omega arith)
