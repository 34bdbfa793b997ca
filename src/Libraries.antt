-- ===== src/Libraries.antt =====
-- The vendored libraries that the crate calls, as parameters of the model: their operations, with
-- the documented behaviour that the crate relies on. `Reference` meets both by plain arithmetic.
pub mod Montgomery
pub mod Bigint
pub mod Xof
pub mod Reference
