-- ===== src/Tests.antt =====
-- Tests: the theorems at the sample objects.
pub mod Sample
mod Lifecycle
pub mod World
mod Buckets
mod Accounts
mod Providers
mod Owners
mod Start
mod Copies
