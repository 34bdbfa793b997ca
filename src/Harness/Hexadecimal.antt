-- ===== src/Harness/Hexadecimal.antt =====
-- secret-taint/src/main.rs: `required_array` reads the hexadecimal digits of a variable, in either
-- case.
use mathlib.Core.List.{append_assoc}
use ed301_eddsa.Base.{
  ℕ, zero, suc, ◌+◌, ◌*◌, ◌/◌, ◌%◌, ◌^◌, ◌≤◌, ◌<◌, ◌==◌, ==_iff, arith, not-eq-false, ◌≡◌, ◌↔◌, ◌⊎◌,
  inl, inr, refl, sym, ap, ap₂, ◌∙◌, Option, some, [], ◌∷◌, ◌++◌, length, get_or, set, replicate,
  bit_or, length-append,
}
use ed301_eddsa.Base.Bytes.{Bytes}
use ed301_eddsa.Base.Bits.{all_below, all_below_sound}
use ed301_eddsa.Base.Results.{
  Result, ok, err, ◌>>=◌, ok_inj, >>=-eq-ok, ok_or-ok, fail_if-ok, Result-cases,
}
use ed301_eddsa.Harness.Inputs.{hex_nibble, read_pairs, required_array}

-- A character is a digit of a value below 16: `0` to `9`, and `a` to `f` or `A` to `F` from ten on.
abbrev pub IsDigit : ℕ → ℕ → Type 0
IsDigit c v = ((v < 10) × (c ≡ 48 + v)) ⊎ ((10 ≤ v) × (v < 16) × ((c ≡ 87 + v) ⊎ (c ≡ 55 + v)))

-- The text has two digits for every byte, the high one first.
abbrev pub Spells : Bytes → Bytes → Type 0
Spells [] [] = Unit {0}
Spells (high ∷ low ∷ text) (b ∷ bs) = IsDigit high (b / 16) × IsDigit low (b % 16) × Spells text bs
Spells text bs = ⊥

hex_nibble_iff : (c v : ℕ) → (hex_nibble c ≡ ok v) ↔ IsDigit c v
unfolding hex_nibble
hex_nibble_iff c v = (λ h. digit h, λ k. nibble k)
  where
    digit : hex_nibble c ≡ ok v → IsDigit c v
    digit h = ground arith

    nibble : IsDigit c v → hex_nibble c ≡ ok v
    nibble k = ground arith

-- The bytes that the digits spell, read from the front.
decoded : Bytes → Result Bytes Bytes
decoded (h ∷ l ∷ text) = hex_nibble h >>= λ high.
    hex_nibble l >>= λ low. decoded text >>= λ bs. ok (bit_or (high * 2 ^ 4) low ∷ bs)
decoded text = ok []

get_or-append : (pre ys : Bytes) (k : ℕ) → get_or (pre ++ ys) (length pre + k) 0 ≡ get_or ys k 0
get_or-append [] ys k = ap (λ t. get_or ys t 0) {x = 0 + k} {y = k} (omega arith)
get_or-append (b ∷ pre) ys k =
    ap (λ t. get_or (b ∷ (pre ++ ys)) t 0) {x = suc (length pre) + k} {y = suc (length pre + k)}
      (omega arith)
    ∙ get_or-append pre ys k

set-append : (done zs : Bytes) (z v : ℕ) → set (done ++ (z ∷ zs)) (length done) v ≡ done ++ (v ∷ zs)
set-append [] zs z v = refl
set-append (b ∷ done) zs z v = ap (◌∷◌ b) (set-append done zs z v)

-- The bytes read before, in front of the rest.
regrouped :
    (done : Bytes) (b : ℕ) (m : Result Bytes Bytes)
    → (m >>= λ bs. ok ((done ++ (b ∷ [])) ++ bs))
      ≡ ((m >>= λ bs. ok (b ∷ bs)) >>= λ bs. ok (done ++ bs))
regrouped done b (ok bs) = ap ok (append_assoc done (b ∷ []) bs)
regrouped done b (err e) = refl

-- The loop, with the digits already read and the bytes already written.
read_pairs_lem :
    (left : ℕ) (pre done rest : Bytes)
    → length pre ≡ length done * 2
    → length rest ≡ left * 2
    → read_pairs left (length done) (pre ++ rest) (done ++ replicate left 0)
      ≡ (decoded rest >>= λ bs. ok (done ++ bs))
unfolding read_pairs decoded
read_pairs_lem zero pre done [] n k = refl
read_pairs_lem zero pre done (h ∷ rest) n k = absurd (omega (arith, k))
read_pairs_lem (suc left) pre done [] n k = absurd (omega (arith, k))
read_pairs_lem (suc left) pre done (h ∷ []) n k = absurd (omega (arith, k))
read_pairs_lem (suc left) pre done (h ∷ l ∷ text) n k =
    let rest = λ (b : ℕ).
      read_pairs_lem left (pre ++ (h ∷ l ∷ [])) (done ++ (b ∷ [])) text
        (omega (arith, n, length-append pre (h ∷ l ∷ []), length-append done (b ∷ [])))
        (omega (arith, k)) in
    ap₂ (λ x y. hex_nibble x >>= λ high. hex_nibble y >>= λ low. next high low) first second
    ∙ elim (Result-cases (hex_nibble h)) [
      | inr (e, failed) ↦ rw failed refl
      | inl (high, e1) ↦ elim (Result-cases (hex_nibble l)) [
        | inr (e, failed) ↦ rw (e1, failed) refl
        | inl (low, e2) ↦
            rw (e1, e2)
              (moved (bit_or (high * 2 ^ 4) low)
                ∙ rest (bit_or (high * 2 ^ 4) low)
                ∙ regrouped done (bit_or (high * 2 ^ 4) low) (decoded text))
      ]
    ]
  where
    value : Bytes
    value = pre ++ (h ∷ l ∷ text)

    next : ℕ → ℕ → Result Bytes Bytes
    next high low =
        read_pairs left (length done + 1) value
          (set (done ++ replicate (suc left) 0) (length done) (bit_or (high * 2 ^ 4) low))

    first : get_or value (length done * 2) 0 ≡ h
    first =
        ap (λ t. get_or value t 0) {x = length done * 2} {y = length pre + 0} (omega (arith, n))
        ∙ get_or-append pre (h ∷ l ∷ text) 0

    second : get_or value (length done * 2 + 1) 0 ≡ l
    second =
        ap (λ t. get_or value t 0) {x = length done * 2 + 1} {y = length pre + 1} (omega (arith, n))
        ∙ get_or-append pre (h ∷ l ∷ text) 1

    moved :
        (b : ℕ)
        → read_pairs left
            (length done + 1)
            value
            (set (done ++ replicate (suc left) 0) (length done) b)
          ≡ read_pairs left
              (length (done ++ (b ∷ [])))
              ((pre ++ (h ∷ l ∷ [])) ++ text)
              ((done ++ (b ∷ [])) ++ replicate left 0)
    moved b = (λ i.
        read_pairs left (sym (length-append done (b ∷ [])) i)
          (sym (append_assoc pre (h ∷ l ∷ []) text) i)
          ((set-append done (replicate left 0) 0 b
              ∙ sym (append_assoc done (b ∷ []) (replicate left 0)))
            i))

-- A byte, from the values of its two digits.
joined : (high low : ℕ) → high < 16 → low < 16 → bit_or (high * 2 ^ 4) low ≡ high * 16 + low
unfolding all_below
joined high low h l =
    ap (λ x. bit_or (x * 2 ^ 4) low) {x = high} {y = (high * 16 + low) / 16} (omega (arith, l))
    ∙ ap (bit_or ((high * 16 + low) / 16 * 2 ^ 4)) {x = low} {y = (high * 16 + low) % 16}
        (omega (arith, l))
    ∙ (==_iff _ _).0 (
        all_below_sound 256 (λ b. bit_or (b / 16 * 2 ^ 4) (b % 16) == b) (high * 16 + low) refl
          (omega (arith, h, l)))

digit-lt : (c v : ℕ) → IsDigit c v → v < 16
digit-lt c v (inl (below, same)) = omega (arith, below)
digit-lt c v (inr (above, below, same)) = below

-- The digits that are read are those that spell the bytes.
decoded-Spells :
    (n : ℕ) (text bytes : Bytes)
    → length text ≡ n * 2
    → decoded text ≡ ok bytes
    → Spells text bytes × (length bytes ≡ n)
unfolding decoded
decoded-Spells zero [] bytes k h = rw (← ok_inj h) (tt, refl)
decoded-Spells zero (c ∷ text) bytes k h = absurd (omega (arith, k))
decoded-Spells (suc n) [] bytes k h = absurd (omega (arith, k))
decoded-Spells (suc n) (c ∷ []) bytes k h = absurd (omega (arith, k))
decoded-Spells (suc n) (c ∷ d ∷ text) bytes k h =
    let (high, e1, h1) = >>=-eq-ok _ _ h in
    let (low, e2, h2) = >>=-eq-ok _ _ h1 in
    let (rest, e3, h3) = >>=-eq-ok _ _ h2 in
    let first = (hex_nibble_iff c high).0 e1 in
    let second = (hex_nibble_iff d low).0 e2 in
    let (spelled, total) = decoded-Spells n text rest (omega (arith, k)) e3 in
    let byte = joined high low (digit-lt c high first) (digit-lt d low second) in
    let high_digit : (high * 16 + low) / 16 ≡ high = omega (arith, digit-lt d low second) in
    let low_digit : (high * 16 + low) % 16 ≡ low = omega (arith, digit-lt d low second) in
    rw (← ok_inj h3, byte) ((rw high_digit first, rw low_digit second, spelled), ap suc total)

Spells-decoded : (text bytes : Bytes) → Spells text bytes → decoded text ≡ ok bytes
unfolding decoded
Spells-decoded [] [] h = refl
Spells-decoded [] (b ∷ bs) h = absurd h
Spells-decoded (c ∷ []) [] h = absurd h
Spells-decoded (c ∷ []) (b ∷ bs) h = absurd h
Spells-decoded (c ∷ d ∷ text) [] h = absurd h
Spells-decoded (c ∷ d ∷ text) (b ∷ bs) (first, second, rest) =
    rw
      (
        (hex_nibble_iff c (b / 16)).1 first,
        (hex_nibble_iff d (b % 16)).1 second,
        Spells-decoded text bs rest,
      )
      (ap (λ t. ok (t ∷ bs))
        (joined (b / 16) (b % 16) (digit-lt c _ first) (digit-lt d _ second) ∙ omega arith))

Spells-length : (text bytes : Bytes) → Spells text bytes → length text ≡ length bytes * 2
Spells-length [] [] h = refl
Spells-length [] (b ∷ bs) h = absurd h
Spells-length (c ∷ []) [] h = absurd h
Spells-length (c ∷ []) (b ∷ bs) h = absurd h
Spells-length (c ∷ d ∷ text) [] h = absurd h
Spells-length (c ∷ d ∷ text) (b ∷ bs) h = omega (arith, Spells-length text bs h.2)

-- A variable is read exactly if its text spells as many bytes as the array has.
pub required_array_iff :
    (n : ℕ) (env : Bytes → Option Bytes) (name bytes : Bytes)
    → (required_array n env name ≡ ok bytes)
      ↔ ((text : Bytes) × (env name ≡ some text) × Spells text bytes × (length bytes ≡ n))
unfolding required_array
required_array_iff n env name bytes = (
  λ h.
      let (text, e, h1) = >>=-eq-ok _ _ h in
      let (size, h2) = fail_if-ok _ _ _ h1 in
      let total = (==_iff (length text) (n * 2)).0 (not-eq-false _ size) in
      let (rest, d, same) =
        >>=-eq-ok (decoded text) _ (sym (read_pairs_lem n [] [] text refl total) ∙ h2) in
      let (spelled, count) = decoded-Spells n text bytes total (d ∙ same) in
      (text, ok_or-ok _ _ e, spelled, count),
  λ (text, e, spelled, count).
      let total : length text ≡ n * 2 = omega (arith, Spells-length text bytes spelled, count) in
      rw (e, (==_iff (length text) (n * 2)).1 total)
        (read_pairs_lem n [] [] text refl total
          ∙ ap (λ m. m >>= λ bs. ok bs) (Spells-decoded text bytes spelled)),
)
