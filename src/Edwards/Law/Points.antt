-- ===== src/Edwards/Law/Points.antt =====
-- edwards.rs: the laws of a group, for extended points.
use ed301_eddsa.Base.{◌+◌, ◌*◌, ◌%◌, ◌^◌, ◌<◌, ◌≡◌, ◌↔◌, ◌∙◌, true}
use ed301_eddsa.Parameters.{field_bits, scalar_modulus}
use ed301_eddsa.Libraries.Bigint.{Bigint}
use ed301_eddsa.Scalar.{Scalar}
use ed301_eddsa.Edwards.{EdwardsPoint, add, scalar_mul, ct_eq, is_valid, is_identity, basepoint}
use ed301_eddsa.Edwards.Complete.Closed.{is_valid_iff}
use ed301_eddsa.Edwards.Law.Associative.{sum_assoc}
use ed301_eddsa.Edwards.Law.Times.{times-zero, times-add, times-mul}
use ed301_eddsa.Edwards.Law.Refined.{
  Stands, Stands-OnAffine, add-Stands, affine, valid-Stands, scalar_mul-Stands,
}
use ed301_eddsa.Edwards.Law.Order.{basepoint-Stands, base}
use ed301_eddsa.Edwards.Law.Cyclic.{times-eq-neutral, times_congr}
use ed301_eddsa.Edwards.Law.Compared.{ct_eq-Stands, is_identity-Stands}

module _ ⦃b : Bigint⦄ where
  stands : (p : EdwardsPoint) → is_valid p ≡ true → Stands p (affine p)
  stands p h = valid-Stands ((is_valid_iff p).0 h)

  -- Addition of points that pass the validity test is associative, up to the comparison of points.
  pub add_assoc :
      (p q r : EdwardsPoint)
      → is_valid p ≡ true
      → is_valid q ≡ true
      → is_valid r ≡ true
      → ct_eq (add (add p q) r) (add p (add q r)) ≡ true
  add_assoc p q r hp hq hr =
      let sp = stands p hp in
      let sq = stands q hq in
      let sr = stands r hr in
      (ct_eq-Stands (add-Stands (add-Stands sp sq) sr) (add-Stands sp (add-Stands sq sr))).1
        (sum_assoc _ _ _ (Stands-OnAffine sp) (Stands-OnAffine sq) (Stands-OnAffine sr))

  -- On a point that passes the validity test, multiplication by a sum is the sum of the multiples,
  -- and multiplication by a product is multiplication twice, up to the comparison of points, where
  -- the numbers stay below 2^301.
  pub scalar_mul_laws :
      (p : EdwardsPoint) (s t : Scalar)
      → is_valid p ≡ true
      → s < 2 ^ field_bits
      → t < 2 ^ field_bits
      → s + t < 2 ^ field_bits
      → s * t < 2 ^ field_bits
      → (ct_eq (scalar_mul p (s + t)) (add (scalar_mul p s) (scalar_mul p t)) ≡ true)
        × (ct_eq (scalar_mul p (s * t)) (scalar_mul (scalar_mul p t) s) ≡ true)
  scalar_mul_laws p s t h hs ht h_sum h_product =
      let k = stands p h in
      let kt = scalar_mul-Stands t k ht in
      (
        (ct_eq-Stands (scalar_mul-Stands (s + t) k h_sum)
              (add-Stands (scalar_mul-Stands s k hs) kt)).1
            (times-add s t _ (Stands-OnAffine k)),
        (ct_eq-Stands (scalar_mul-Stands (s * t) k h_product) (scalar_mul-Stands s kt hs)).1
            (times-mul s t _ (Stands-OnAffine k)),
      )

  -- The multiple of the base point by a number below 2^301 is the identity exactly if L divides
  -- the number.
  pub basepoint_order :
      (s : Scalar)
      → s < 2 ^ field_bits
      → (is_identity (scalar_mul basepoint s) ≡ true) ↔ (s % scalar_modulus ≡ 0)
  basepoint_order s h =
      let k = is_identity-Stands (scalar_mul-Stands s basepoint-Stands h) in
      (λ e. times-eq-neutral s (k.0 e), λ e. k.1 (times_congr s 0 e ∙ times-zero base))
