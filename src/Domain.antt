-- ===== src/Domain.antt =====
-- packages/domain: the vocabulary of the program and its decision services.
pub mod Types
pub mod Json
pub mod Letters
pub mod Profile
pub mod Samples
pub mod Policy
pub mod Keys
pub mod Text
pub mod Submit
pub mod RateLimiter
pub mod Lifecycle
pub mod Readiness
pub mod Dedup
pub mod Proof
