-- ===== src/Signature.antt =====
-- crates/ed301-eddsa/src/signature.rs: keys, signatures, signing and verification.
pub mod Error
pub mod Wire
pub mod VerifyingKey
pub mod Expanded
pub mod Signing
pub mod OneShot
pub mod Trace
pub mod Failpoints
