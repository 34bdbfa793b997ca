-- ===== src/Base/Bytes.antt =====
-- Byte strings: the number that a little-endian string stands for, and its `n` low bytes.
use mathlib.Core.Path.{◌≡◌, refl, ap, ap₂, ◌∙◌}
use mathlib.Core.List.{List, [], ◌∷◌, ◌++◌}
use Prim.Native.Nat.{ℕ, zero, suc, ◌+◌, ◌*◌, ◌/◌, ◌%◌, ◌^◌, ◌<◌}
use native.Mathlib.Nat.{
  pow-zero, pow-suc, div-add-mod, mul-add-mod_self_right, mod-eq_of_lt, mod-lt, div-div-eq-div-mul,
}
use native.Mathlib.Omega.{arith}
use mathlib.Core.Bool.{Bool, true, ◌&&◌}
use ed301_eddsa.Base.Tests.{ltb, ltb→lt, and-eq-true}
use ed301_eddsa.Base.Lists.{length, take, drop, replicate}

abbrev pub Bytes : Type 0
Bytes = List ℕ

abbrev pub IsBytes : Bytes → Type 0
IsBytes [] = Unit {0}
IsBytes (b ∷ bs) = (b < 256) × IsBytes bs

-- What the type `[u8; n]` says of a value.
abbrev pub IsArray : ℕ → Bytes → Type 0
IsArray n bs = (length bs ≡ n) × IsBytes bs

abbrev pub le_value : Bytes → ℕ
le_value [] = 0
le_value (b ∷ bs) = b + 256 * le_value bs

unfoldable pub le_bytes : ℕ → ℕ → Bytes
le_bytes zero x = []
le_bytes (suc n) x = x % 256 ∷ le_bytes n (x / 256)

pub IsBytes-append : (xs ys : Bytes) → IsBytes xs → IsBytes ys → IsBytes (xs ++ ys)
IsBytes-append [] ys h k = k
IsBytes-append (x ∷ xs) ys h k = (h.0, IsBytes-append xs ys h.1 k)

pub IsBytes-take : (n : ℕ) (xs : Bytes) → IsBytes xs → IsBytes (take n xs)
IsBytes-take zero xs h = tt
IsBytes-take (suc n) [] h = tt
IsBytes-take (suc n) (x ∷ xs) h = (h.0, IsBytes-take n xs h.1)

pub IsBytes-drop : (n : ℕ) (xs : Bytes) → IsBytes xs → IsBytes (drop n xs)
IsBytes-drop zero xs h = h
IsBytes-drop (suc n) [] h = tt
IsBytes-drop (suc n) (x ∷ xs) h = IsBytes-drop n xs h.1

pub length-le_bytes : (n x : ℕ) → length (le_bytes n x) ≡ n
unfolding le_bytes
length-le_bytes zero x = refl
length-le_bytes (suc n) x = ap suc (length-le_bytes n (x / 256))

pub le_bytes-zero : (x : ℕ) → le_bytes 0 x ≡ []
unfolding le_bytes
le_bytes-zero x = refl

pub le_bytes-IsBytes : (n x : ℕ) → IsBytes (le_bytes n x)
unfolding le_bytes
le_bytes-IsBytes zero x = tt
le_bytes-IsBytes (suc n) x = (omega arith, le_bytes-IsBytes n (x / 256))

pub le_value-lt : (bs : Bytes) → IsBytes bs → le_value bs < 256 ^ length bs
le_value-lt [] h = omega arith
le_value-lt (b ∷ bs) h = omega (arith, h.0, le_value-lt bs h.1, pow-suc 256 (length bs))

pub le_value-le_bytes : (n x : ℕ) → x < 256 ^ n → le_value (le_bytes n x) ≡ x
unfolding le_bytes
le_value-le_bytes zero x h = omega arith
le_value-le_bytes (suc n) x h =
    omega (arith, pow-suc 256 n, le_value-le_bytes n (x / 256) (omega (arith, pow-suc 256 n)))

pub le_bytes-le_value : (bs : Bytes) → IsBytes bs → le_bytes (length bs) (le_value bs) ≡ bs
unfolding le_bytes
le_bytes-le_value [] h = refl
le_bytes-le_value (b ∷ bs) h =
    ap₂ ◌∷◌ (head h.0) (ap (le_bytes (length bs)) (rest h.0) ∙ le_bytes-le_value bs h.1)
  where
    head : b < 256 → (b + 256 * le_value bs) % 256 ≡ b
    head p = omega arith

    rest : b < 256 → (b + 256 * le_value bs) / 256 ≡ le_value bs
    rest p = omega arith

pub le_value-append :
    (xs ys : Bytes) → le_value (xs ++ ys) ≡ le_value xs + 256 ^ length xs * le_value ys
le_value-append [] ys = omega arith
le_value-append (x ∷ xs) ys =
    omega (arith, le_value-append xs ys, ap (λ (t : ℕ). t * le_value ys) (pow-suc 256 (length xs)))

pub le_value-replicate_zero : (n : ℕ) → le_value (replicate n 0) ≡ 0
le_value-replicate_zero zero = refl
le_value-replicate_zero (suc n) = omega (arith, le_value-replicate_zero n)

pub replicate-IsBytes : (n : ℕ) → IsBytes (replicate n 0)
replicate-IsBytes zero = tt
replicate-IsBytes (suc n) = (omega arith, replicate-IsBytes n)

-- The low bytes of a number do not see how many more are written.
pub take-le_bytes : (k n x : ℕ) → take k (le_bytes (k + n) x) ≡ le_bytes k x
unfolding le_bytes
take-le_bytes zero n x = refl
take-le_bytes (suc k) n x = rw (suc_add k n) (ap (◌∷◌ (x % 256)) (take-le_bytes k n (x / 256)))
  where
    suc_add : (a b : ℕ) → suc a + b ≡ suc (a + b)
    suc_add a b = omega arith

pow_pos : (n : ℕ) → 0 < 256 ^ n
pow_pos zero = omega arith
pow_pos (suc n) = omega (arith, pow-suc 256 n, pow_pos n)

mod_split : (x k m : ℕ) → 0 < k → m ≡ 256 * k → x % m ≡ 256 * (x / 256 % k) + x % 256
mod_split x k m pos e =
    ap (λ t. t % m) {x = x} {y = q / k * m + (256 * (q % k) + x % 256)}
      (omega (arith, div-add-mod q k, ap (λ (t : ℕ). q / k * t) e))
    ∙ mul-add-mod_self_right (q / k) m (256 * (q % k) + x % 256)
    ∙ mod-eq_of_lt (omega (arith, mod-lt q pos))
  where
    q : ℕ
    q = x / 256

pub le_bytes-mod : (n x : ℕ) → le_bytes n (x % 256 ^ n) ≡ le_bytes n x
unfolding le_bytes
le_bytes-mod zero x = refl
le_bytes-mod (suc n) x = ap₂ ◌∷◌ head (ap (le_bytes n) tail ∙ le_bytes-mod n (x / 256))
  where
    -- x = 256 q + r, and x % (256 k) = 256 (q % k) + r.
    split : x % 256 ^ suc n ≡ 256 * (x / 256 % 256 ^ n) + x % 256
    split = mod_split x (256 ^ n) (256 ^ suc n) (pow_pos n) (omega (arith, pow-suc 256 n))

    head : x % 256 ^ suc n % 256 ≡ x % 256
    head = omega (arith, split)

    tail : x % 256 ^ suc n / 256 ≡ x / 256 % 256 ^ n
    tail = omega (arith, split)

suc_add : (n k : ℕ) → suc n + k ≡ suc (n + k)
suc_add n k = omega arith

pub le_bytes-add : (n k x : ℕ) → le_bytes (n + k) x ≡ le_bytes n x ++ le_bytes k (x / 256 ^ n)
unfolding le_bytes
le_bytes-add zero k x =
    ap (λ t. le_bytes t x) {x = zero + k} {y = k} (omega arith)
    ∙ ap (le_bytes k) {x = x} {y = x / 1} (omega arith)
le_bytes-add (suc n) k x =
    ap (λ t. le_bytes t x) (suc_add n k)
    ∙ ap (◌∷◌ (x % 256)) (le_bytes-add n k (x / 256))
    ∙ ap (λ t. x % 256 ∷ (le_bytes n (x / 256) ++ le_bytes k t))
        (div-div-eq-div-mul x 256 (256 ^ n)
          ∙ ap (λ t. x / t) {x = 256 * 256 ^ n} (omega (arith, pow-suc 256 n)))

pub pow-add : (c n k : ℕ) → c ^ (n + k) ≡ c ^ n * c ^ k
pow-add c zero k =
    ap (λ t. c ^ t) {x = zero + k} {y = k} (omega arith)
    ∙ omega (arith, pow-zero c, ap (λ (t : ℕ). t * c ^ k) (pow-zero c))
pow-add c (suc n) k =
    ap (λ t. c ^ t) (suc_add n k)
    ∙ pow-suc c (n + k)
    ∙ omega (arith, ap (λ (t : ℕ). t * c) (pow-add c n k), ap (λ (t : ℕ). t * c ^ k) (pow-suc c n))

-- Eight bytes are a word of 64 bits.
pub word_pow : (i : ℕ) → 256 ^ (8 * i) ≡ (2 ^ 64) ^ i
word_pow zero = ap (λ t. 256 ^ t) {x = 8 * zero} {y = 0} (omega arith)
word_pow (suc i) =
    ap (λ t. 256 ^ t) {x = 8 * suc i} {y = 8 + 8 * i} (omega arith)
    ∙ pow-add 256 8 (8 * i)
    ∙ ap (λ t. 256 ^ 8 * t) (word_pow i)
    ∙ omega (arith, pow-suc (2 ^ 64) i)

-- A test that every item is a byte.
abbrev pub all_bytes : Bytes → Bool
all_bytes [] = true
all_bytes (b ∷ bs) = ltb b 256 && all_bytes bs

pub IsBytes_of : (bs : Bytes) → all_bytes bs ≡ true → IsBytes bs
IsBytes_of [] h = tt
IsBytes_of (b ∷ bs) h =
    let (first, rest) = and-eq-true _ _ h in (ltb→lt b 256 first, IsBytes_of bs rest)
