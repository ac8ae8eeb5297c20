-- ===== src/Storage.antt =====
-- src/harness/storage: the state that the servers of one deployment share.
pub mod Names
pub mod Contracts
pub mod File
pub mod Postgres
