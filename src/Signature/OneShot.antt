-- ===== src/Signature/OneShot.antt =====
-- signature.rs: the functions on bytes that the crate exports.
pub mod Verify
pub mod Sign
pub mod Errors
pub mod Total
pub mod Unique
use ed301_eddsa.Base.{Bool, false}
use ed301_eddsa.Base.Bytes.{Bytes}
use ed301_eddsa.Base.Results.{Result, ok, err, ◌>>=◌, is_ok}
use ed301_eddsa.Libraries.Bigint.{Bigint}
use ed301_eddsa.Libraries.Xof.{Xof}
use ed301_eddsa.Signature.Error.{SignatureError}
use ed301_eddsa.Signature.Wire.{Signature}
use ed301_eddsa.Signature.Wire
use ed301_eddsa.Signature.VerifyingKey.{VerifyingKey}
use ed301_eddsa.Signature.VerifyingKey
use ed301_eddsa.Signature.Signing

-- `match result { Ok(value) => rest, Err(_) => return false }`
abbrev pub or_false {ℓ} : {A : Type ℓ} → Result SignatureError A → (A → Bool) → Bool
or_false (ok a) rest = rest a
or_false (err e) rest = false

module _ ⦃b : Bigint⦄ where
  unfoldable pub validate_public_key : Bytes → Bool
  validate_public_key public_key = is_ok (VerifyingKey.from_bytes public_key)

module _ ⦃b : Bigint⦄ ⦃xof : Xof⦄ where
  unfoldable pub sign : Bytes → Bytes → Result SignatureError Bytes
  sign seed message = Signing.from_seed seed >>= λ key.
      Signing.sign key message >>= λ signature. ok (Wire.to_bytes signature)

  unfoldable pub verify : Bytes → Bytes → Bytes → Bool
  verify public_key message signature = or_false (VerifyingKey.from_bytes public_key) λ public_key.
      or_false (Wire.from_bytes signature)
        λ signature. VerifyingKey.verify public_key message signature
