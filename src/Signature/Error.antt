-- ===== src/Signature/Error.antt =====
-- signature.rs: the errors that a caller can see.
pub data SignatureError : Type 0 where
  invalid_seed_length : SignatureError
  invalid_public_key : SignatureError
  invalid_signature : SignatureError
  internal_failure : SignatureError
