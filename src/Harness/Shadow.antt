-- ===== src/Harness/Shadow.antt =====
-- secret-taint/src/main.rs: the marking of the seed, and the check of the result's shadow bytes.
use ed301_eddsa.Base.{
  ℕ, ◌≡◌, ◌↔◌, ◌⊎◌, inl, inr, refl, sym, ap, ap₂, ◌∙◌, ◌==◌, ==_iff, Bool, true, false, not, ◌&&◌,
  ◌||◌, not-eq-false, Bool-cases, if◌then◌else◌, [], ◌∷◌, ◌++◌, length, replicate, zero, suc,
  length-replicate,
}
use ed301_eddsa.Base.Bytes.{Bytes}
use ed301_eddsa.Base.Results.{ok, fail_if, >>=-eq-ok, fail_if-ok, ok_inj}
use ed301_eddsa.Base.Text.{codes}
use ed301_eddsa.Parameters.{public_key_bytes, signature_bytes}
use ed301_eddsa.Harness.{Tracked, Memcheck, Mode, defined, tainted}
use ed301_eddsa.Harness.Valgrind.{mark_undefined, get_vbits, make_defined}
use ed301_eddsa.Harness.Run.{
  is_defined, any_nonzero, fresh, apply_mode, validity_bits, require_public_vbits,
}

-- A request for the shadow of n bytes that reports its success by one has left it in the buffer.
abbrev pub ReportsShadow : Memcheck → Type 0
ReportsShadow vg =
    (shadow : Bytes) (buffer : Tracked) (n : ℕ)
    → length shadow ≡ n
    → length buffer.value ≡ n
    → (vg.get_vbits shadow buffer n).0 ≡ 1
    → (vg.get_vbits shadow buffer n).1.value ≡ shadow

-- There is a shadow byte for every byte of the crate's results.
abbrev pub KeepsLength : Memcheck → Type 0
KeepsLength vg =
    (seed : Tracked)
    → (length (vg.public_shadow seed) ≡ public_key_bytes)
      × (length (vg.signature_shadow seed) ≡ signature_bytes)

-- The shadow of the seed that the crate is given: what is read from the environment is defined, and
-- is marked as undefined in the mode `tainted` only.
abbrev pub seed_shadow : Memcheck → Mode → Bytes → Bytes
seed_shadow vg defined seed = replicate (length seed) 0
seed_shadow vg tainted seed = vg.make_mem_undefined (length seed) (replicate (length seed) 0)

abbrev pub seed_in : Memcheck → Mode → Bytes → Tracked
seed_in vg mode seed = record { value = seed; shadow = seed_shadow vg mode seed }

pub apply_mode_lem :
    (vg : Memcheck) (mode : Mode) (seed : Bytes)
    → apply_mode vg mode (fresh seed) ≡ seed_in vg mode seed
unfolding apply_mode mark_undefined
apply_mode_lem vg defined seed = refl
apply_mode_lem vg tainted seed = refl

-- The request for the shadow of a result of n bytes, into n zero bytes, succeeds.
abbrev pub Reported : Memcheck → ℕ → Bytes → Type 0
Reported vg n shadow =
    (vg.get_vbits shadow (record { value = replicate n 0; shadow = replicate n 0 }) n).0 ≡ 1

-- No bit is undefined, unless in a tainted run of a build without the instrumentation.
abbrev pub IsDeclassified : Bool → Mode → Bytes → Type 0
IsDeclassified instrumented mode shadow =
    ((mode ≡ tainted) × (instrumented ≡ false)) ⊎ (shadow ≡ replicate (length shadow) 0)

any_nonzero_iff : (bs : Bytes) → (any_nonzero bs ≡ false) ↔ (bs ≡ replicate (length bs) 0)
any_nonzero_iff bs = (zeros bs, λ e. ap any_nonzero e ∙ none_in (length bs))
  where
    zeros : (bs : Bytes) → any_nonzero bs ≡ false → bs ≡ replicate (length bs) 0
    zeros [] h = refl
    zeros (b ∷ bs) h = elim (Bool-cases (b == 0)) [
      | inl null ↦ ap₂ ◌∷◌ ((==_iff b 0).0 null) (zeros bs (rw null at h))
      | inr other ↦ cc (rw other at h)
    ]

    none_in : (n : ℕ) → any_nonzero (replicate n 0) ≡ false
    none_in zero = refl
    none_in (suc n) = none_in n

demanded_iff :
    (instrumented : Bool) (mode : Mode) (shadow : Bytes)
    → (((is_defined mode || instrumented) && any_nonzero shadow) ≡ false)
      ↔ IsDeclassified instrumented mode shadow
demanded_iff instrumented mode shadow = (to instrumented mode, from instrumented mode)
  where
    to :
        (instrumented : Bool) (mode : Mode)
        → ((is_defined mode || instrumented) && any_nonzero shadow) ≡ false
        → IsDeclassified instrumented mode shadow
    to instrumented defined h = inr ((any_nonzero_iff shadow).0 h)
    to true tainted h = inr ((any_nonzero_iff shadow).0 h)
    to false tainted h = inl (refl, refl)

    from :
        (instrumented : Bool) (mode : Mode)
        → IsDeclassified instrumented mode shadow
        → ((is_defined mode || instrumented) && any_nonzero shadow) ≡ false
    from instrumented defined (inl (e, f)) = cc
    from instrumented defined (inr e) = (any_nonzero_iff shadow).1 e
    from true tainted (inl (e, f)) = cc
    from true tainted (inr e) = (any_nonzero_iff shadow).1 e
    from false tainted h = refl

module _ (vg : Memcheck) (reports : ReportsShadow vg) (decimal : ℕ → Bytes) where
  get_vbits_lem :
      (x : Tracked) (n : ℕ)
      → length x.value ≡ n
      → get_vbits vg x (fresh (replicate (length x.value) 0))
        ≡ vg.get_vbits x.shadow (record { value = replicate n 0; shadow = replicate n 0 }) n
  unfolding get_vbits
  get_vbits_lem x n total =
      ap
        (λ c.
          if not c
          then (3, fresh (replicate (length x.value) 0))
          else vg.get_vbits x.shadow (fresh (replicate (length x.value) 0)) (length x.value))
        ((==_iff _ _).1 (sym (length-replicate (length x.value) 0)))
      ∙ ap (λ k. vg.get_vbits x.shadow (fresh (replicate k 0)) k) total
      ∙ ap (λ k. vg.get_vbits x.shadow (record { value = replicate n 0; shadow = replicate k 0 }) n)
          (length-replicate n 0)

  validity_bits_iff :
      (x : Tracked) (n : ℕ) (bits : Bytes)
      → length x.value ≡ n
      → length x.shadow ≡ n
      → (validity_bits vg decimal x ≡ ok bits) ↔ (Reported vg n x.shadow × (x.shadow ≡ bits))
  unfolding validity_bits make_defined
  validity_bits_iff x n bits total size = (
    λ h.
        let (success, e) = fail_if-ok _ _ _ h in
        let status =
          ap (λ t. t.0) (sym (get_vbits_lem x n total)) ∙ (==_iff _ 1).0 (not-eq-false _ success) in
        (
          status,
          sym (reported status) ∙ ap (λ t. t.1.value) (sym (get_vbits_lem x n total)) ∙ ok_inj e,
        ),
    λ (status, same).
        ap (λ t. fail_if (not (t.0 == 1)) (message t.0) (ok t.1.value)) (get_vbits_lem x n total)
        ∙ ap (λ c. fail_if (not c) (message answer.0) (ok answer.1.value)) ((==_iff _ 1).1 status)
        ∙ ap ok (reported status ∙ same),
  )
    where
      message : ℕ → Bytes
      message status = codes "VALGRIND_GET_VBITS failed with status " ++ decimal status

      answer : ℕ × Tracked
      answer = vg.get_vbits x.shadow (record { value = replicate n 0; shadow = replicate n 0 }) n

      reported : Reported vg n x.shadow → answer.1.value ≡ x.shadow
      reported status = reports x.shadow _ n size (length-replicate n 0) status

  -- The check passes exactly if the request for the shadow succeeds and no bit is undefined where
  -- the run demands that.
  pub require_public_vbits_iff :
      (instrumented : Bool) (mode : Mode) (x : Tracked) (n : ℕ)
      → length x.value ≡ n
      → length x.shadow ≡ n
      → (require_public_vbits vg decimal instrumented mode x ≡ ok tt)
        ↔ (Reported vg n x.shadow × IsDeclassified instrumented mode x.shadow)
  unfolding require_public_vbits
  require_public_vbits_iff instrumented mode x n total size = (
    λ h.
        let (bits, e, k) = >>=-eq-ok (validity_bits vg decimal x) _ h in
        let (status, same) = (validity_bits_iff x n bits total size).0 e in
        (
          status,
          (demanded_iff instrumented mode x.shadow).0 (
              ap (λ t. (is_defined mode || instrumented) && any_nonzero t) same
              ∙ (fail_if-ok _ _ _ k).0),
        ),
    λ (status, clear).
        rw
          (
            (validity_bits_iff x n x.shadow total size).1 (status, refl),
            (demanded_iff instrumented mode x.shadow).1 clear,
          )
          refl,
  )
