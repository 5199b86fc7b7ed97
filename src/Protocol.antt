-- ===== src/Protocol.antt =====
-- custom_components/presence_bridge/protocol.py: invitations and the proofs over them.
pub mod Errors
pub mod Base64
pub mod Link
pub mod Messages
pub mod Proofs
pub mod Uri
pub mod Parsing
