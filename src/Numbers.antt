-- ===== src/Numbers.antt =====
-- Number theory that the parameters of the curve need: powers modulo a number, primes, Fermat's
-- theorem, and certificates of primality.
pub mod Powers
pub mod Primes
pub mod Divisors
pub mod Binomials
pub mod Fermat
pub mod Orders
pub mod Pocklington
pub mod FieldPrime
pub mod OrderPrime
