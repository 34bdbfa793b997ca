-- ===== src/Base/Text.antt =====
-- Text as its code points, which are its bytes where it is ASCII.
use Prim.Native.Char.{code}
use Prim.Native.String.{String}
use mathlib.Core.Bool.{Bool, true, false, ◌&&◌}
use mathlib.Core.Option.{Option, none, some}
use mathlib.Core.List.{[], ◌∷◌}
use mathlib.Core.Path.{◌≡◌, refl, sym, ap₂}
use mathlib.Core.Logic.{inl, inr}
use mathlib.Core.List.{◌++◌}
use ed301_eddsa.Base.Tests.{◌==◌, if◌then◌else◌, ==_iff, Bool-cases, and-eq-true}
use ed301_eddsa.Base.Options.{some_inj}
use ed301_eddsa.Base.Bytes.{Bytes}

abbrev pub codes : String → Bytes
codes String.[] = []
codes (String.◌∷◌ c s) = code c ∷ codes s

abbrev pub same_bytes : Bytes → Bytes → Bool
same_bytes [] [] = true
same_bytes [] (c ∷ cs) = false
same_bytes (b ∷ bs) [] = false
same_bytes (b ∷ bs) (c ∷ cs) = (b == c) && same_bytes bs cs

abbrev pub strip_prefix : Bytes → Bytes → Option Bytes
strip_prefix [] text = some text
strip_prefix (b ∷ bs) [] = none
strip_prefix (b ∷ bs) (c ∷ cs) = if b == c then strip_prefix bs cs else none

pub same_bytes-eq : (bs cs : Bytes) → same_bytes bs cs ≡ true → bs ≡ cs
same_bytes-eq [] [] h = refl
same_bytes-eq [] (c ∷ cs) h = cc
same_bytes-eq (b ∷ bs) [] h = cc
same_bytes-eq (b ∷ bs) (c ∷ cs) h =
    let (head, tail) = and-eq-true (b == c) (same_bytes bs cs) h in
    ap₂ ◌∷◌ ((==_iff b c).0 head) (same_bytes-eq bs cs tail)

pub same_bytes_self : (bs : Bytes) → same_bytes bs bs ≡ true
same_bytes_self [] = refl
same_bytes_self (b ∷ bs) = ap₂ ◌&&◌ ((==_iff b b).1 refl) (same_bytes_self bs)

-- What is left after a prefix is what follows it.
pub strip_prefix-some :
    (prefix text : Bytes) {rest : Bytes}
    → strip_prefix prefix text ≡ some rest
    → text ≡ prefix ++ rest
strip_prefix-some [] text h = some_inj h
strip_prefix-some (b ∷ bs) [] h = cc
strip_prefix-some (b ∷ bs) (c ∷ cs) h = elim (Bool-cases (b == c)) [
  | inl same ↦ ap₂ ◌∷◌ (sym ((==_iff b c).0 same)) (strip_prefix-some bs cs (rw same at h))
  | inr other ↦ cc (rw other at h)
]
