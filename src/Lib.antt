-- ===== src/Lib.antt =====
-- Ed301-EdDSA-draft-00: the signature crate crates/ed301-eddsa.
--
-- The crate signs and verifies with a twisted Edwards curve over the field of p = 2^301 - 2^99 + 947
-- elements, in a subgroup of prime order L with cofactor 4, and with SHAKE256. Each of its parts is
-- a module here, and each uses the ones before it:
--   * Parameters: crates/ed301-eddsa/src/parameters.rs, and the two moduli.
--   * Field: crates/ed301-eddsa/src/field.rs. A `FieldElement` is an element of the Montgomery form
--     that the vendored crypto-bigint provides; Arith, Codec, Parity, Prime (inverses)
--     and Roots (square roots) hold its theorems.
--   * Secret: crates/ed301-eddsa/src/secret.rs and secret_taint.rs. The owner of a secret is its
--     value, and `declassify` changes no value.
--   * Scalar: crates/ed301-eddsa/src/scalar.rs. A `Scalar` is the number that its U320 holds; the
--     word loops are recursion on the index, and the loop of `write_canonical_bytes` has a fuel of
--     five, since five words of eight bytes cover the 38 bytes that it writes. Oracle is the wide
--     division of the unit tests, with `U320::rem_wide` as a parameter.
--   * Edwards: crates/ed301-eddsa/src/edwards.rs, in Point (formulas), Multiply (the 301 rounds, by
--     recursion on the bit index) and Encoding. `Result<_, EdwardsPointError>` is an Option, since
--     the error has one value. OnCurve, Group, Affine, Compare, Scaled, Rounds,
--     Multiples, Bits, Encoded, Decoded, Codec, RoundTrip and Recovered hold the theorems. Complete
--     is about the denominators of the addition law, and Law is the abstract view: affine points
--     under the twisted Edwards law, with the n-fold sum `times n`. Law/Refined relates the
--     operations to it by the predicate `Stands`.
--   * SignatureHash: crates/ed301-eddsa/src/signature_hash.rs, and the hash in one update of
--     its tests.
--   * Signature: crates/ed301-eddsa/src/signature.rs, in Wire (`Signature`), VerifyingKey, Expanded
--     (`ExpandedSecret`), Signing (`SigningKey` and `sign_expanded`), OneShot (the functions on bytes),
--     Trace (the tracing copy of the signing path, `test_support`) and Failpoints (the fail points of
--     the test build: the thread-local slot is passed along, and a panic is an outcome). Errors are
--     the constructors of `SignatureError`; a failed `expect` is none.
--   * Downstream: integration/downstream-workspace/src/main.rs, a program that checks the crate on a
--     recorded vector; a panic is none.
--   * Harness: secret-taint/src/main.rs and secret-taint/valgrind-client/src/lib.rs, the program
--     that runs the crate under Memcheck. A value is its bytes with their shadow bytes. `Memcheck`
--     holds what is outside: the client requests, and the shadow that the crate's instructions give
--     their result from the seed in memory, its bytes and its shadow; `Process` is the environment
--     and the feature of the build. CommandLine describes the arguments, Hexadecimal the text of a
--     variable, and Shadow the shadow bytes, each apart from the code that reads them.
-- Base holds what they share: bytes, words, bits, results. Ring holds a commutative ring and a
-- solver of its equations by computation, for the identities behind the formulas. Numbers holds
-- residues: Fermat's theorem, and Pocklington's criterion with the certificates of the two moduli.
--
-- Libraries states what the crate takes from the vendored crates, as parameters: `Bigint` for
-- crypto-bigint (U320 as numbers, the two Montgomery forms as rings of residues with an inverse, a
-- power and constant-time comparison and assignment) and `Xof` for shake (absorbing in parts is
-- absorbing the concatenation, and the output has the length asked for). Reference meets `Bigint`
-- by plain arithmetic, with the extended Euclidean algorithm for the inverse, and `Xof` by a table
-- of recorded digests; Examples runs signing and verification on a recorded vector with them, and
-- the unit tests of field.rs and edwards.rs, which Field/UnitTests and Edwards/UnitTests hold.
--
-- Not modelled: timing, the wiping of memory, the vendored crates themselves, and the crate's tests
-- on recorded vectors. Of the unit tests, those of secret.rs and signature_hash.rs are not modelled
-- (of the latter, the oracle `single_update` is), of those of scalar.rs only the one on the 608 input
-- bits is, and of those of edwards.rs the one that counts the rounds is not. Which shadow bits the
-- crate's instructions leave undefined is a parameter of the harness, since it is a fact about
-- machine code.
pub mod Base
pub mod Ring
pub mod Numbers
pub mod Parameters
pub mod Libraries
pub mod Field
pub mod Secret
pub mod Scalar
pub mod Edwards
pub mod SignatureHash
pub mod Signature
pub mod Downstream
pub mod Harness
pub mod Examples
