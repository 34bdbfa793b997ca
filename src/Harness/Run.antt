-- ===== src/Harness/Run.antt =====
-- secret-taint/src/main.rs: the two cases, the reading of the arguments, and the exit code.
use ed301_eddsa.Base.{
  ℕ, ◌==◌, Bool, true, false, not, ◌&&◌, ◌||◌, if◌then◌else◌, Option, none, some, List, [], ◌∷◌,
  ◌++◌, length, replicate,
}
use ed301_eddsa.Base.Bytes.{Bytes}
use ed301_eddsa.Base.Results.{Result, ok, err, ◌>>=◌, ok_or, map_err, fail_if}
use ed301_eddsa.Base.Text.{codes, same_bytes, strip_prefix}
use ed301_eddsa.Parameters.{seed_bytes, public_key_bytes, signature_bytes}
use ed301_eddsa.Libraries.Bigint.{Bigint}
use ed301_eddsa.Libraries.Xof.{Xof}
use ed301_eddsa.Signature.Wire
use ed301_eddsa.Signature.VerifyingKey
use ed301_eddsa.Signature.Signing
use ed301_eddsa.Harness.{Tracked, Memcheck, Process, Mode, defined, tainted}
use ed301_eddsa.Harness.Valgrind.{running_on_valgrind, mark_undefined, make_defined, get_vbits}
use ed301_eddsa.Harness.Inputs.{required_array}

abbrev pub secret_env : Bytes
secret_env = codes "ED301_CT_SECRET_HEX"

abbrev pub expected_public_env : Bytes
expected_public_env = codes "ED301_CT_EXPECTED_PUBLIC_HEX"

abbrev pub expected_signature_env : Bytes
expected_signature_env = codes "ED301_CT_EXPECTED_SIGNATURE_HEX"

abbrev pub is_defined : Mode → Bool
is_defined defined = true
is_defined tainted = false

abbrev pub any_nonzero : Bytes → Bool
any_nonzero [] = false
any_nonzero (b ∷ bs) = not (b == 0) || any_nonzero bs

-- Bytes that the program has just written are defined.
abbrev pub fresh : Bytes → Tracked
fresh bytes = record { value = bytes; shadow = replicate (length bytes) 0 }

-- A number in a message.
abbrev Decimal : Type 0
Decimal = ℕ → Bytes

-- The command line so far: the case and the mode.

pub record Options : Type 0 where
  pub case : Option Bytes
  pub mode : Option Mode

unfoldable pub parse_mode : Bytes → Result Bytes Mode
parse_mode value =
    if same_bytes value (codes "defined")
    then ok defined
    else if same_bytes value (codes "tainted")
    then ok tainted
    else err (codes "unsupported mode: " ++ value)

-- One round of the loop over the arguments.
unfoldable pub read_argument : Options → Bytes → Result Bytes Options
unfolding parse_mode
read_argument o argument = elim (strip_prefix (codes "--case=") argument) [
  | some value ↦ ok (record o { case = some value })
  | none ↦ elim (strip_prefix (codes "--mode=") argument) [
    | some value ↦ parse_mode value >>= λ mode. ok (record o { mode = some mode })
    | none ↦ err (codes "unsupported argument: " ++ argument)
  ]
]

unfoldable pub read_arguments : Options → List Bytes → Result Bytes Options
read_arguments o [] = ok o
read_arguments o (argument ∷ rest) = read_argument o argument >>= λ o. read_arguments o rest

-- The `match` of `main`.
abbrev pub finish : Result Bytes Bytes → ℕ × Bytes
finish (ok line) = (0, line)
finish (err message) = (2, codes "secret_taint_error=" ++ message)

module _ (vg : Memcheck) where
  unfoldable pub apply_mode : Mode → Tracked → Tracked
  apply_mode mode secret = if is_defined mode then secret else mark_undefined vg secret

  unfoldable pub validity_bits : Decimal → Tracked → Result Bytes Bytes
  validity_bits decimal value =
      let (status, vbits) = get_vbits vg value (fresh (replicate (length value.value) 0)) in
      let vbits = make_defined vg vbits in
      fail_if (not (status == 1)) (codes "VALGRIND_GET_VBITS failed with status " ++ decimal status)
        (ok vbits.value)

  unfoldable pub require_public_vbits : Decimal → Bool → Mode → Tracked → Result Bytes (Unit {0})
  require_public_vbits decimal instrumented mode value = validity_bits decimal value >>= λ vbits.
      fail_if ((is_defined mode || instrumented) && any_nonzero vbits)
        (codes "public output was not declassified") (ok tt)

module _ ⦃b : Bigint⦄ ⦃xof : Xof⦄ (vg : Memcheck) (decimal : ℕ → Bytes) (process : Process) where
  unfoldable pub run_public : Mode → Result Bytes (Unit {0})
  run_public mode = required_array seed_bytes process.var secret_env >>= λ seed.
      required_array public_key_bytes process.var expected_public_env >>= λ expected.
      let seed = apply_mode vg mode (fresh seed) in
      map_err (λ _. codes "key import failed") (Signing.from_seed seed.value) >>= λ key.
      map_err (λ _. codes "public derivation failed") (Signing.verifying_key key) >>= λ verifying.
      let public = VerifyingKey.to_bytes verifying in
      let tracked : Tracked = record { value = public; shadow = vg.public_shadow seed } in
      require_public_vbits vg decimal process.instrumented mode tracked >>= λ checked.
      let seed = make_defined vg seed in
      fail_if (not (same_bytes public expected)) (codes "public KAT mismatch") (ok tt)

  unfoldable pub run_sign : Mode → Result Bytes (Unit {0})
  run_sign mode = required_array seed_bytes process.var secret_env >>= λ seed.
      required_array signature_bytes process.var expected_signature_env >>= λ expected.
      let seed = apply_mode vg mode (fresh seed) in
      map_err (λ _. codes "key import failed") (Signing.from_seed seed.value) >>= λ key.
      map_err (λ _. codes "signing failed") (Signing.sign key []) >>= λ parsed.
      let signature = Wire.to_bytes parsed in
      let tracked : Tracked = record { value = signature; shadow = vg.signature_shadow seed } in
      require_public_vbits vg decimal process.instrumented mode tracked >>= λ checked.
      let seed = make_defined vg seed in
      fail_if (not (same_bytes signature expected)) (codes "signature KAT mismatch") (ok tt)

  -- The line that a passing run prints.
  pub report : Bytes → Mode → Bytes
  report case mode =
      codes "secret_taint_case="
      ++ (case
          ++ (codes " mode="
              ++ ((if is_defined mode then codes "defined" else codes "tainted")
                  ++ (codes " instrumentation="
                      ++ ((if process.instrumented then codes "1" else codes "0")
                          ++ codes " pass=1")))))

  unfoldable pub run_case : Bytes → Mode → Result Bytes (Unit {0})
  run_case case mode =
      if same_bytes case (codes "public")
      then run_public mode
      else if same_bytes case (codes "sign")
      then run_sign mode
      else err (codes "unsupported case: " ++ case)

  -- The result holds the line printed.
  unfoldable pub run : List Bytes → Result Bytes Bytes
  unfolding read_arguments read_argument report
  run arguments = fail_if (running_on_valgrind vg == 0) (codes "harness must run under Valgrind") (
      read_arguments (record { case = none; mode = none }) arguments >>= λ o.
      ok_or o.case (codes "missing --case") >>= λ case.
      ok_or o.mode (codes "missing --mode") >>= λ mode.
      run_case case mode >>= λ passed. ok (report case mode))

  -- The exit code, with the text on standard output or standard error.
  unfoldable pub main : List Bytes → ℕ × Bytes
  main arguments = finish (run arguments)
