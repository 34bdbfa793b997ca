-- ===== src/Downstream/Hex.antt =====
-- integration/downstream-workspace/src/main.rs: `hex_array` on lower-case hexadecimal.
use ed301_eddsa.Base.{ℕ, suc, ◌+◌, ◌*◌, ◌/◌, ◌%◌, ◌^◌, ◌<◌, ◌==◌, ==_iff, arith, ltb, if◌then◌else◌}
use ed301_eddsa.Base.{
  ◌≡◌, refl, sym, ap, ap₂, ◌∙◌, Option, some, ◌>>=◌, [], ◌∷◌, ◌++◌, length, get_or, set, replicate,
  bit_or,
}
use ed301_eddsa.Base.Bytes.{Bytes, IsBytes, IsArray}
use ed301_eddsa.Base.Bits.{all_below, all_below_sound}
use ed301_eddsa.Downstream.{assert, nibble, fill, hex_array}

-- The digit of a number below 16.
abbrev pub digit : ℕ → ℕ
digit n = if ltb n 10 then 48 + n else 87 + n

abbrev pub to_hex : Bytes → Bytes
to_hex [] = []
to_hex (b ∷ bs) = digit (b / 16) ∷ digit (b % 16) ∷ to_hex bs

nibble-digit : (n : ℕ) → n < 16 → nibble (digit n) ≡ some n
unfolding nibble
nibble-digit n h = ground arith

joined : (b : ℕ) → b < 256 → bit_or (b / 16 * 2 ^ 4) (b % 16) ≡ b
unfolding all_below
joined b h =
    (==_iff _ _).0 (all_below_sound 256 (λ b. bit_or (b / 16 * 2 ^ 4) (b % 16) == b) b refl h)

-- Behind a prefix: the digits to read, the byte to write, and the prefix with one byte more.
past_digits :
    (done ys : Bytes) (k : ℕ) → get_or (to_hex done ++ ys) (length done * 2 + k) 0 ≡ get_or ys k 0
past_digits [] ys k = ap (λ t. get_or ys t 0) {x = 0 * 2 + k} {y = k} (omega arith)
past_digits (b ∷ done) ys k =
    ap (λ t. get_or (to_hex (b ∷ done) ++ ys) t 0) {x = suc (length done) * 2 + k}
      {y = suc (suc (length done * 2 + k))} (omega arith)
    ∙ past_digits done ys k

set-append : (done zs : Bytes) (z v : ℕ) → set (done ++ (z ∷ zs)) (length done) v ≡ done ++ (v ∷ zs)
set-append [] zs z v = refl
set-append (b ∷ done) zs z v = ap (◌∷◌ b) (set-append done zs z v)

more : (done xs : Bytes) (b : ℕ) → done ++ (b ∷ xs) ≡ (done ++ (b ∷ [])) ++ xs
more [] xs b = refl
more (c ∷ done) xs b = ap (◌∷◌ c) (more done xs b)

to_hex-more :
    (done xs : Bytes) (b : ℕ)
    → to_hex done ++ to_hex (b ∷ xs) ≡ to_hex (done ++ (b ∷ [])) ++ to_hex xs
to_hex-more [] xs b = refl
to_hex-more (c ∷ done) xs b = ap (λ t. digit (c / 16) ∷ digit (c % 16) ∷ t) (to_hex-more done xs b)

length-more : (done : Bytes) (b : ℕ) → length done + 1 ≡ length (done ++ (b ∷ []))
length-more [] b = omega arith
length-more (c ∷ done) b = omega (arith, length-more done b)

fill_lem :
    (done rest : Bytes)
    → IsBytes rest
    → fill
        (length rest)
        (length done)
        (to_hex done ++ to_hex rest)
        (done ++ replicate (length rest) 0)
      ≡ some (done ++ rest)
unfolding fill
fill_lem done [] h = refl
fill_lem done (b ∷ rest) h =
    ap (λ m. m >>= λ high. nibble (get_or hex (length done * 2 + 1) 0) >>= λ low. step high low)
      (ap nibble (
          ap (λ t. get_or hex t 0) {x = length done * 2} {y = length done * 2 + 0} (omega arith)
          ∙ past_digits done (to_hex (b ∷ rest)) 0)
        ∙ nibble-digit (b / 16) (omega (arith, h.0)))
    ∙ ap (λ m. m >>= λ low. step (b / 16) low)
        (ap nibble (past_digits done (to_hex (b ∷ rest)) 1) ∙ nibble-digit (b % 16) (omega arith))
    ∙ ap (fill (length rest) (length done + 1) hex) (
        ap (set output (length done)) (joined b h.0)
        ∙ set-append done (replicate (length rest) 0) 0 b
        ∙ more done (replicate (length rest) 0) b)
    ∙ ap₂ (λ k t. fill (length rest) k t ((done ++ (b ∷ [])) ++ replicate (length rest) 0))
        (length-more done b) (to_hex-more done rest b)
    ∙ fill_lem (done ++ (b ∷ [])) rest h.1
    ∙ ap some (sym (more done rest b))
  where
    hex : Bytes
    hex = to_hex done ++ to_hex (b ∷ rest)

    output : Bytes
    output = done ++ replicate (suc (length rest)) 0

    step : ℕ → ℕ → Option Bytes
    step high low =
        fill (length rest) (length done + 1) hex
          (set output (length done) (bit_or (high * 2 ^ 4) low))

length-to_hex : (bs : Bytes) → length (to_hex bs) ≡ length bs * 2
length-to_hex [] = omega arith
length-to_hex (b ∷ bs) = omega (arith, length-to_hex bs)

-- Reading as many bytes as an array has from its lower-case hexadecimal digits gives the array.
pub hex_array-to_hex : (n : ℕ) (bs : Bytes) → IsArray n bs → hex_array n (to_hex bs) ≡ some bs
unfolding hex_array
hex_array-to_hex n bs (total, h) =
    ap (λ c. assert c (fill n 0 (to_hex bs) (replicate n 0)))
      ((==_iff _ _).1 (omega (arith, length-to_hex bs, total)))
    ∙ ap (λ k. fill k 0 (to_hex bs) (replicate k 0)) (sym total)
    ∙ fill_lem [] bs h
