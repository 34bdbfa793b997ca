-- ===== src/Libraries/Xof.antt =====
-- The `shake` crate's Shake256: absorbing in parts is absorbing their concatenation.
use ed301_eddsa.Base.{ℕ, ◌≡◌, [], ◌++◌}
use ed301_eddsa.Base.Bytes.{Bytes, IsArray}

pub record Xof : Type 1 where
  pub State : Type 0
  pub default_state : State
  pub update : State → Bytes → State
  -- `finalize_xof().read(output)` for an output of that length.
  pub finalize_read : State → ℕ → Bytes
  pub update_nothing : (s : State) → update s [] ≡ s
  pub update-append : (s : State) (a b : Bytes) → update (update s a) b ≡ update s (a ++ b)
  pub finalize_read-IsArray : (s : State) (n : ℕ) → IsArray n (finalize_read s n)
