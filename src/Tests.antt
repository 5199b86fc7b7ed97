-- ===== src/Tests.antt =====
-- Runs of the model at concrete values, and the theorems applied to them.
pub mod Fixtures
mod Links
mod Sessions
mod Presence
mod Phones
mod Hosts
mod Receivers
