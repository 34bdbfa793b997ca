-- ===== src/Harness/CommandLine.antt =====
-- secret-taint/src/main.rs: the command lines that the loop over the arguments accepts.
use ed301_eddsa.Base.{
  ◌≡◌, ◌↔◌, refl, sym, ap, ap₂, ◌∙◌, Bool-cases, inl, inr, Option, some, List, [], ◌∷◌, ◌++◌,
  Option-cases,
}
use ed301_eddsa.Base.Bytes.{Bytes}
use ed301_eddsa.Base.Results.{ok, ◌>>=◌, ok_inj, >>=-eq-ok}
use ed301_eddsa.Base.Text.{codes, same_bytes, same_bytes-eq, strip_prefix, strip_prefix-some}
use ed301_eddsa.Harness.{Mode, defined, tainted}
use ed301_eddsa.Harness.Run.{Options, parse_mode, read_argument, read_arguments}

-- The arguments that the program takes, and how they are written.
pub data Argument : Type 0 where
  case_argument : Bytes → Argument
  mode_argument : Mode → Argument

abbrev written : Argument → Bytes
written (case_argument case) = codes "--case=" ++ case
written (mode_argument defined) = codes "--mode=defined"
written (mode_argument tainted) = codes "--mode=tainted"

abbrev pub command_line : List Argument → List Bytes
command_line [] = []
command_line (a ∷ given) = written a ∷ command_line given

-- The case and the mode that come last, or else what is given first.
abbrev pub last_case : Option Bytes → List Argument → Option Bytes
last_case case [] = case
last_case case (case_argument other ∷ given) = last_case (some other) given
last_case case (mode_argument mode ∷ given) = last_case case given

abbrev pub last_mode : Option Mode → List Argument → Option Mode
last_mode mode [] = mode
last_mode mode (case_argument case ∷ given) = last_mode mode given
last_mode mode (mode_argument other ∷ given) = last_mode (some other) given

abbrev updated : Options → Argument → Options
updated o (case_argument case) = record o { case = some case }
updated o (mode_argument mode) = record o { mode = some mode }

last_case-updated :
    (o : Options) (a : Argument) (given : List Argument)
    → last_case o.case (a ∷ given) ≡ last_case (updated o a).case given
last_case-updated o (case_argument case) given = refl
last_case-updated o (mode_argument mode) given = refl

last_mode-updated :
    (o : Options) (a : Argument) (given : List Argument)
    → last_mode o.mode (a ∷ given) ≡ last_mode (updated o a).mode given
last_mode-updated o (case_argument case) given = refl
last_mode-updated o (mode_argument mode) given = refl

read_argument-written :
    (o : Options) (a : Argument) → read_argument o (written a) ≡ ok (updated o a)
unfolding read_argument parse_mode
read_argument-written o (case_argument case) = refl
read_argument-written o (mode_argument defined) = refl
read_argument-written o (mode_argument tainted) = refl

parse_mode-ok :
    (value : Bytes) (mode : Mode)
    → parse_mode value ≡ ok mode
    → written (mode_argument mode) ≡ codes "--mode=" ++ value
unfolding parse_mode
parse_mode-ok value mode h = elim (Bool-cases (same_bytes value (codes "defined"))) [
  | inl first ↦
      ap (λ m. written (mode_argument m)) (sym (ok_inj (rw first at h)))
      ∙ ap (◌++◌ (codes "--mode=")) (sym (same_bytes-eq _ _ first))
  | inr other ↦ elim (Bool-cases (same_bytes value (codes "tainted"))) [
    | inl second ↦
        ap (λ m. written (mode_argument m)) (sym (ok_inj (rw (other, second) at h)))
        ∙ ap (◌++◌ (codes "--mode=")) (sym (same_bytes-eq _ _ second))
    | inr neither ↦ cc (rw (other, neither) at h)
  ]
]

read_argument-ok :
    (o o' : Options) (argument : Bytes)
    → read_argument o argument ≡ ok o'
    → (a : Argument) × (argument ≡ written a) × (updated o a ≡ o')
unfolding read_argument
read_argument-ok o o' argument h = elim (Option-cases (strip_prefix (codes "--case=") argument)) [
  | inr (value, e) ↦
      (case_argument value, strip_prefix-some (codes "--case=") argument e, ok_inj (rw e at h))
  | inl e ↦ elim (Option-cases (strip_prefix (codes "--mode=") argument)) [
    | inr (value, d) ↦
        let (mode, m, same) = >>=-eq-ok (parse_mode value) _ (rw (e, d) at h) in
        (
          mode_argument mode,
          strip_prefix-some (codes "--mode=") argument d ∙ sym (parse_mode-ok value mode m),
          ok_inj same,
        )
    | inl d ↦ cc (rw (e, d) at h)
  ]
]

accepted :
    (arguments : List Bytes) (o o' : Options)
    → read_arguments o arguments ≡ ok o'
    → (given : List Argument) × (arguments ≡ command_line given)
      × (last_case o.case given ≡ o'.case)
      × (last_mode o.mode given ≡ o'.mode)
unfolding read_arguments
accepted [] o o' h = ([], refl, ap (λ t. t.case) (ok_inj h), ap (λ t. t.mode) (ok_inj h))
accepted (argument ∷ rest) o o' h =
    let (o1, first, later) = >>=-eq-ok (read_argument o argument) _ h in
    let (a, e, same) = read_argument-ok o o1 argument first in
    let (given, l, c, m) = accepted rest o1 o' later in
    (
      a ∷ given,
      ap₂ ◌∷◌ e l,
      last_case-updated o a given ∙ ap (λ t. last_case t.case given) same ∙ c,
      last_mode-updated o a given ∙ ap (λ t. last_mode t.mode given) same ∙ m,
    )

read-command_line :
    (given : List Argument) (o o' : Options)
    → last_case o.case given ≡ o'.case
    → last_mode o.mode given ≡ o'.mode
    → read_arguments o (command_line given) ≡ ok o'
unfolding read_arguments
read-command_line [] o o' c m = λ i. ok (record { case = c i; mode = m i })
read-command_line (a ∷ given) o o' c m =
    ap (λ r. r >>= λ o. read_arguments o (command_line given)) (read_argument-written o a)
    ∙ read-command_line given (updated o a) o' (sym (last_case-updated o a given) ∙ c)
        (sym (last_mode-updated o a given) ∙ m)

-- The loop succeeds exactly on the written forms of arguments, and keeps the last of each kind.
pub read_arguments_iff :
    (arguments : List Bytes) (o o' : Options)
    → (read_arguments o arguments ≡ ok o') ↔ (
        (given : List Argument) × (arguments ≡ command_line given)
        × (last_case o.case given ≡ o'.case)
        × (last_mode o.mode given ≡ o'.mode))
read_arguments_iff arguments o o' = (
  accepted arguments o o',
  λ (given, e, c, m). ap (read_arguments o) e ∙ read-command_line given o o' c m,
)
