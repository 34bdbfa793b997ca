-- ===== src/Base/Bits.antt =====
-- Facts about `&` and `|` over a byte, by checking every value.
use Prim.Native.Nat.{ℕ, zero, suc, ◌+◌, ◌*◌, ◌/◌, ◌%◌, ◌<◌, bit_and, bit_or}
use mathlib.Core.Path.{◌≡◌, refl}
use mathlib.Core.Bool.{Bool, true, ◌&&◌}
use native.Mathlib.Omega.{arith}
use ed301_eddsa.Base.Tests.{◌==◌, ==_iff}

unfoldable pub all_below : ℕ → (ℕ → Bool) → Bool
all_below zero p = true
all_below (suc n) p = p n && all_below n p

pub all_below_sound :
    (bound : ℕ) (test : ℕ → Bool) (x : ℕ) → all_below bound test ≡ true → x < bound → test x ≡ true
unfolding all_below
all_below_sound zero test x table small = absurd (omega arith)
all_below_sound (suc bound) test x table small = ground (arith, all_below_sound bound test x)

-- Two functions on bytes agree if they agree at each byte.
byte_table : (f g : ℕ → ℕ) → all_below 256 (λ x. f x == g x) ≡ true → (x : ℕ) → x < 256 → f x ≡ g x
byte_table f g table x h = (==_iff (f x) (g x)).0 (all_below_sound 256 _ x table h)

module _ (x : ℕ) (h : x < 256) where
  pub bit_and_one : bit_and x 1 ≡ x % 2
  unfolding all_below
  bit_and_one = byte_table (λ x. bit_and x 1) (λ x. x % 2) refl x h

  pub bit_and_0x1f : bit_and x 0x1f ≡ x % 32
  unfolding all_below
  bit_and_0x1f = byte_table (λ x. bit_and x 0x1f) (λ x. x % 32) refl x h

  pub bit_and_0x0f : bit_and x 0x0f ≡ x % 16
  unfolding all_below
  bit_and_0x0f = byte_table (λ x. bit_and x 0x0f) (λ x. x % 16) refl x h

  pub bit_and_0x60 : bit_and x 0x60 ≡ x / 32 % 4 * 32
  unfolding all_below
  bit_and_0x60 = byte_table (λ x. bit_and x 0x60) (λ x. x / 32 % 4 * 32) refl x h

  pub bit_and_0xfc : bit_and x 0xfc ≡ x / 4 * 4
  unfolding all_below
  bit_and_0xfc = byte_table (λ x. bit_and x 0xfc) (λ x. x / 4 * 4) refl x h

  pub bit_or_0x10 : x < 16 → bit_or x 0x10 ≡ x + 16
  bit_or_0x10 k = byte_table_16 x k
    where
      byte_table_16 : (x : ℕ) → x < 16 → bit_or x 0x10 ≡ x + 16
      byte_table_16 x k =
          (==_iff _ _).0
            (all_below_sound 16 (λ x. bit_or x 0x10 == x + 16) x (unfold all_below in refl) k)

  pub bit_or_sign : (s : ℕ) → s < 2 → x < 128 → bit_or x (s * 128) ≡ x + s * 128
  bit_or_sign s hs k = by_sign s hs
    where
      at_zero : (x : ℕ) → x < 128 → bit_or x 0 ≡ x
      at_zero x k =
          (==_iff _ _).0 (all_below_sound 128 (λ x. bit_or x 0 == x) x (unfold all_below in refl) k)

      at_one : (x : ℕ) → x < 128 → bit_or x 128 ≡ x + 128
      at_one x k =
          (==_iff _ _).0
            (all_below_sound 128 (λ x. bit_or x 128 == x + 128) x (unfold all_below in refl) k)

      by_sign : (s : ℕ) → s < 2 → bit_or x (s * 128) ≡ x + s * 128
      by_sign zero hs = rw (at_zero x k) (omega arith)
      by_sign (suc zero) hs = at_one x k
      by_sign (suc (suc s)) hs = absurd (omega arith)
