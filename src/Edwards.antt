-- ===== src/Edwards.antt =====
-- crates/ed301-eddsa/src/edwards.rs: points in extended coordinates, with the definitions of the
-- code in the children `Point`, `Multiply` and `Encoding`. `Result<_, EdwardsPointError>` is
-- `Option`, since the error has one value.
mod Point
mod Multiply
mod Encoding
pub mod OnCurve
pub mod Group
pub mod Affine
pub mod Decoded
pub mod Codec
pub mod Complete
pub mod RoundTrip
pub mod Recovered
pub mod Law
pub mod Bits
pub mod Encoded
pub mod Scaled
pub mod Rounds
pub mod Compare
pub mod Multiples
pub mod UnitTests
unfoldable pub use Point.*
unfoldable pub use Multiply.*
unfoldable pub use Encoding.*
