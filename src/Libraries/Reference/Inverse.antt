-- ===== src/Libraries/Reference/Inverse.antt =====
-- Inverses modulo `m` by the extended Euclidean algorithm.
use mathlib.Core.WellFounded.{Acc}
use mathlib.Core.Bool.{false≢true}
use mathlib.Core.Logic.{dite, dif_pos, dif_neg}
use native.Mathlib.Nat.{mod-lt, mod-eq_of_lt, div-add-mod}
use native.Mathlib.Decide.{dec_lt}
use ed301_eddsa.Base.{
  ℕ, ◌*◌, ◌/◌, ◌%◌, ◌<◌, arith, lt_wf, ◌==◌, ==_iff, ct_option, ct_option-some, ct_option-none,
}
use ed301_eddsa.Base.{◌≡◌, ◌≢◌, ◌≡⟨◌⟩◌, ◌∎, [], ◌∷◌, refl, sym, ap, ◌∙◌, Option, none, some}
use ed301_eddsa.Ring.{CommRing, ◌⊕◌, ◌⊗◌, ◌⊖◌}
use ed301_eddsa.Ring.Terms.{var, ◌:+◌, ◌:-◌, ◌:*◌}
use ed301_eddsa.Ring.Solver.{solve}
use ed301_eddsa.Ring.Laws.{mul-zero, mul-one}
use native.Mathlib.Bridge.{le_prop}
use native.Mathlib.Nat.{
  dvd-mod_iff, dvd_refl, dvd-zero, mod_self, dvd-mul_right_of_dvd, eq-one_of_dvd-one,
}
use Prim.Native.Nat.{◌∣◌}
use ed301_eddsa.Libraries.Montgomery.Residues.{ring, new-add, new-mul}
use ed301_eddsa.Libraries.Reference.Plain.{Residue, reduce, residues, Residue_ext}

module _ (m : ℕ) (big : 1 < m) where
  abbrev pos : 0 < m
  pos = omega arith

  abbrev F : Type 0
  F = Residue m pos

  instance abbrev field_like : CommRing F
  field_like = ring (residues m pos)

  euclid : (r s : ℕ) → F → F → Acc ◌<◌ s → ℕ × F
  euclid r s t u (Acc.intro _ smaller) =
      dite (dec_lt 0 s)
        (λ h. euclid s (r % s) u (t ⊖ reduce m pos (r / s) ⊗ u) (smaller (r % s) (mod-lt r h)))
        (λ _. (r, t))

  record IsBezout (a : F) (r s : ℕ) (result : ℕ × F) : Type 0 where
    bezout : reduce m pos result.0 ≡ a ⊗ result.1
    left : result.0 ∣ r
    right : result.0 ∣ s

  -- The remainder is the same combination as the next coefficient.
  remainder_lem :
      (a t u : F) (r s : ℕ)
      → reduce m pos r ≡ a ⊗ t
      → reduce m pos s ≡ a ⊗ u
      → reduce m pos (r % s) ≡ a ⊗ (t ⊖ reduce m pos (r / s) ⊗ u)
  remainder_lem a t u r s ht hu =
      x
      ≡⟨ solve (x ∷ d ∷ q ∷ []) (var 0) (var 1 :* var 2 :+ var 0 :- var 1 :* var 2) refl ⟩
        d ⊗ q ⊕ x ⊖ d ⊗ q
      ≡⟨ ap (λ y. y ⊖ d ⊗ q) (split ∙ ht) ⟩ a ⊗ t ⊖ d ⊗ q
      ≡⟨ ap (λ y. a ⊗ t ⊖ y ⊗ q) hu ⟩ a ⊗ t ⊖ (a ⊗ u) ⊗ q
      ≡⟨ solve (a ∷ t ∷ u ∷ q ∷ []) (var 0 :* var 1 :- (var 0 :* var 2) :* var 3)
          (var 0 :* (var 1 :- var 3 :* var 2)) refl ⟩
        a ⊗ (t ⊖ q ⊗ u) ∎
    where
      x : F
      x = reduce m pos (r % s)

      d : F
      d = reduce m pos s

      q : F
      q = reduce m pos (r / s)

      split : d ⊗ q ⊕ x ≡ reduce m pos r
      split =
          ap (λ y. y ⊕ x) (new-mul (residues m pos) s (r / s))
          ∙ new-add (residues m pos) (s * (r / s)) (r % s)
          ∙ ap (reduce m pos) (div-add-mod r s)

  euclid-IsBezout :
      (a : F) (r s : ℕ) (t u : F) (w : Acc ◌<◌ s)
      → reduce m pos r ≡ a ⊗ t
      → reduce m pos s ≡ a ⊗ u
      → IsBezout a r s (euclid r s t u w)
  unfolding euclid
  euclid-IsBezout a r s t u (Acc.intro _ smaller) ht hu = elim (dec_lt 0 s) [
    | yes p ↦ rw (dif_pos _ le_prop p) (
        let ih =
          euclid-IsBezout a s (r % s) u (t ⊖ reduce m pos (r / s) ⊗ u)
            (smaller (r % s) (mod-lt r p)) hu (remainder_lem a t u r s ht hu) in
        record { bezout = ih.bezout; left = (dvd-mod_iff _ ih.left).0 ih.right; right = ih.left })
    | no p ↦ rw (dif_neg _ p) (record {
      bezout = ht;
      left = dvd_refl r;
      right = let e : s ≡ 0 = omega arith in rw e (dvd-zero r);
    })
  ]

  bezout_at : F → ℕ × F
  unfolding euclid
  bezout_at a = euclid m a.0 (reduce m pos 0) (reduce m pos 1) (lt_wf.apply a.0)

  bezout_at-IsBezout : (a : F) → IsBezout a m a.0 (bezout_at a)
  unfolding bezout_at
  bezout_at-IsBezout a =
      euclid-IsBezout a m a.0 (reduce m pos 0) (reduce m pos 1) (lt_wf.apply a.0)
        (Residue_ext m pos (reduce m pos m) (reduce m pos 0) (mod_self m ∙ sym (mod-eq_of_lt pos))
          ∙ sym (mul-zero a))
        (Residue_ext m pos (reduce m pos a.0) a (mod-eq_of_lt a.1) ∙ sym (mul-one a))

  abbrev coefficient : ℕ × F → Option F
  coefficient result = ct_option result.1 (result.0 == 1)

  unfoldable pub inverse : F → Option F
  unfolding bezout_at lt_wf dec_lt
  inverse a = coefficient (bezout_at a)

  coefficient-some :
      (result : ℕ × F) (b : F) → coefficient result ≡ some b → (result.0 ≡ 1) × (result.1 ≡ b)
  coefficient-some (g, t) b h =
      let (one, e) = ct_option-some t (g == 1) h in ((==_iff g 1).0 one, e)

  coefficient-none : (result : ℕ × F) → coefficient result ≡ none → result.0 ≢ 1
  coefficient-none (g, t) h e = false≢true (sym (ct_option-none t (g == 1) h) ∙ (==_iff g 1).1 e)

  inverse_lem : (a : F) → inverse a ≡ coefficient (bezout_at a)
  unfolding inverse
  inverse_lem a = refl

  pub inverse-some : (a b : F) → inverse a ≡ some b → a ⊗ b ≡ reduce m pos 1
  inverse-some a b h =
      let (one, e) = coefficient-some (bezout_at a) b (sym (inverse_lem a) ∙ h) in
      ap (◌⊗◌ a) (sym e) ∙ sym (bezout_at-IsBezout a).bezout ∙ ap (reduce m pos) one

  pub inverse-none : (a b : F) → inverse a ≡ none → a ⊗ b ≢ reduce m pos 1
  inverse-none a b h e =
      coefficient-none (bezout_at a) (sym (inverse_lem a) ∙ h)
        (eq-one_of_dvd-one (rw (ap (λ x. x.0) e ∙ mod-eq_of_lt big) at common))
    where
      common : (bezout_at a).0 ∣ a.0 * b.0 % m
      common =
          (dvd-mod_iff _ (bezout_at-IsBezout a).left).1
            (dvd-mul_right_of_dvd _ (bezout_at-IsBezout a).right b.0)

  -- A common divisor that is a multiple of the residue.
  pub common_divisor : (a : F) → (g : ℕ) × (t : F) × (reduce m pos g ≡ a ⊗ t) × (g ∣ m) × (g ∣ a.0)
  common_divisor a =
      let k = bezout_at-IsBezout a in ((bezout_at a).0, (bezout_at a).1, k.bezout, k.left, k.right)
