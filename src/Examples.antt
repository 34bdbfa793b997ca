-- ===== src/Examples.antt =====
-- Tests: the model run on recorded data, and the theorems applied to it.
pub mod Vectors
pub mod Runs
pub mod Points
pub mod Signatures
pub mod Curve
pub mod Codes
pub mod Programs
pub mod Harness
pub mod Units
