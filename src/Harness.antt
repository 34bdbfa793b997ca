-- ===== src/Harness.antt =====
-- secret-taint: the program that runs the crate under Valgrind's Memcheck, with the seed marked as
-- undefined. A value in memory is its bytes with the shadow bytes that Memcheck keeps of them.
pub mod Valgrind
pub mod Inputs
pub mod Run
pub mod CommandLine
pub mod Hexadecimal
pub mod Shadow
pub mod Cases
pub mod Declassified
use ed301_eddsa.Base.{ℕ, Bool, Option}
use ed301_eddsa.Base.Bytes.{Bytes}

pub record Tracked : Type 0 where
  pub value : Bytes
  pub shadow : Bytes

-- The client requests that valgrind-client/c/valgrind_client.c wraps, each on the shadow of the
-- object that its pointer names. `get_vbits` returns the status and what is then in the buffer.
pub record Memcheck : Type 0 where
  pub running_on_valgrind : ℕ
  pub make_mem_undefined : ℕ → Bytes → Bytes
  pub make_mem_defined : ℕ → Bytes → Bytes
  pub get_vbits : Bytes → Tracked → ℕ → ℕ × Tracked
  pub count_errors : ℕ
  -- The shadow that the crate's instructions give the encoded public key, and the signature of the
  -- empty message, from the seed in memory.
  pub public_shadow : Tracked → Bytes
  pub signature_shadow : Tracked → Bytes

-- What the program reads from outside: its arguments after the first, its environment and the
-- feature `instrumented`.
pub record Process : Type 0 where
  pub instrumented : Bool
  pub var : Bytes → Option Bytes

pub data Mode : Type 0 where
  defined tainted : Mode
