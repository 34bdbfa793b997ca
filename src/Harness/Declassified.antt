-- ===== src/Harness/Declassified.antt =====
-- secret-taint/src/main.rs: when a run of the harness passes.
use mathlib.Core.Bool.{false≢true}
use ed301_eddsa.Base.{
  ℕ, ◌≡◌, ◌≢◌, ◌↔◌, inl, inr, refl, sym, ap, ◌∙◌, arith, ==_iff, false_of_iff, none, some, List,
}
use ed301_eddsa.Base.Bytes.{Bytes}
use ed301_eddsa.Base.Results.{ok, >>=-eq-ok, fail_if-ok, ok_or-ok, Result-cases}
use ed301_eddsa.Libraries.Bigint.{Bigint}
use ed301_eddsa.Libraries.Xof.{Xof}
use ed301_eddsa.Harness.{Memcheck, Process, Mode}
use ed301_eddsa.Harness.Valgrind.{running_on_valgrind}
use ed301_eddsa.Harness.Run.{run, main, finish, report}
use ed301_eddsa.Harness.CommandLine.{
  Argument, command_line, last_case, last_mode, read_arguments_iff,
}
use ed301_eddsa.Harness.Shadow.{ReportsShadow, KeepsLength}
use ed301_eddsa.Harness.Cases.{CasePassed, passed_case, run_case-passed}

two_ne_zero : ◌≡◌ {A = ℕ} 2 0 → ⊥
two_ne_zero h = omega arith

-- The harness runs under Valgrind, every argument is a case or one of the two modes, both kinds are
-- there, and the last case passes in the last mode.
abbrev pub RunPassed : ⦃b : Bigint⦄ → ⦃xof : Xof⦄ → Memcheck → Process → List Bytes → Type 0
RunPassed vg process arguments =
    (vg.running_on_valgrind ≢ 0)
    × ((given : List Argument) × (case : Bytes) × (mode : Mode) × (arguments ≡ command_line given)
        × (last_case none given ≡ some case)
        × (last_mode none given ≡ some mode)
        × CasePassed vg process mode case)

module _ ⦃b : Bigint⦄ ⦃xof : Xof⦄ (vg : Memcheck) (reports : ReportsShadow vg)
    (sized : KeepsLength vg) (decimal : ℕ → Bytes) (process : Process) where
  passed_run :
      (arguments : List Bytes) {line : Bytes}
      → run vg decimal process arguments ≡ ok line
      → RunPassed vg process arguments
  unfolding run running_on_valgrind
  passed_run arguments h =
      let (inside, h1) = fail_if-ok _ _ _ h in
      let (o, parsed, h2) = >>=-eq-ok _ _ h1 in
      let (case, c, h3) = >>=-eq-ok _ _ h2 in
      let (mode, m, h4) = >>=-eq-ok _ _ h3 in
      let (passed, p, h5) = >>=-eq-ok _ _ h4 in
      let (given, same, l, k) = (read_arguments_iff arguments _ o).0 parsed in
      (
        λ outside. false≢true (sym inside ∙ (==_iff _ 0).1 outside),
        (
          given,
          case,
          mode,
          same,
          l ∙ ok_or-ok _ _ c,
          k ∙ ok_or-ok _ _ m,
          passed_case vg reports sized decimal process mode case p,
        ),
      )

  run-passed :
      (arguments : List Bytes)
      → RunPassed vg process arguments
      → (line : Bytes) × (run vg decimal process arguments ≡ ok line)
  unfolding run running_on_valgrind
  run-passed arguments (inside, (given, case, mode, same, c, m, passed)) = (
    report vg decimal process case mode,
    rw
        (
          false_of_iff _ (==_iff vg.running_on_valgrind 0) inside,
          (read_arguments_iff arguments (record { case = none; mode = none })
                (record { case = some case; mode = some mode })).1
              (given, same, c, m),
          run_case-passed vg reports sized decimal process mode case passed,
        )
        refl,
  )

  -- Where the request for shadow bytes reports truly and the results keep one shadow byte for each
  -- of their bytes, a run of the harness ends with exit code zero exactly if it is under Valgrind,
  -- every argument is --case= with any text, --mode=defined or --mode=tainted, and the last case,
  -- public or sign, passes in the last mode: the environment spells in hexadecimal the 38 bytes of
  -- the seed and the bytes of the crate's result on it, the request for the shadow of the result
  -- succeeds, and no bit of the result is undefined, unless the mode is tainted and the build not
  -- instrumented; the seed in memory is marked as undefined in the mode tainted only.
  pub exit_zero_iff :
      (arguments : List Bytes)
      → ((main vg decimal process arguments).0 ≡ 0) ↔ RunPassed vg process arguments
  unfolding main
  exit_zero_iff arguments = (
    λ h. elim (Result-cases (run vg decimal process arguments)) [
      | inl (line, e) ↦ passed_run arguments e
      | inr (message, e) ↦ absurd (two_ne_zero (ap (λ m. (finish m).0) (sym e) ∙ h))
    ],
    λ k. ap (λ m. (finish m).0) (run-passed arguments k).1,
  )
