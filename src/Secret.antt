-- ===== src/Secret.antt =====
-- crates/ed301-eddsa/src/secret.rs and secret_taint.rs. An owner of a secret holds its value until it
-- is dropped; the wiping of the memory at the drop has no place in a model of values, nor has the
-- shadow memory of the instrumented build.
abbrev pub Secret {ℓ} : Type ℓ → Type ℓ
Secret A = A

abbrev pub secret {ℓ} : {A : Type ℓ} → A → Secret A
secret value = value

-- The value after `declassify(&mut value)`, in both builds.
abbrev pub declassify {ℓ} : {A : Type ℓ} → A → A
declassify value = value
