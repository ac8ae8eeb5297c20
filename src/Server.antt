-- ===== src/Server.antt =====
-- src/harness/server: what the server decides before it runs anything.
pub mod Admission
pub mod QueuedAdmission
pub mod QueuePositions
pub mod RunState
pub mod Health
pub mod RateLimit
pub mod Access
pub mod ApiKeys
