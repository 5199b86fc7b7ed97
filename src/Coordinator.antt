-- ===== src/Coordinator.antt =====
-- custom_components/presence_bridge/coordinator.py: observers, identities and pairing sessions.
pub mod Types
pub mod Lease
pub mod Public
pub mod Topic
pub mod Status
pub mod Observers
pub mod Matching
pub mod Action
pub mod Pairing
pub mod Removal
pub mod Repair
pub mod Enroll
pub mod Areas
pub mod Native
pub mod Telemetry
