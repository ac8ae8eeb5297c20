-- ===== src/Storage/File.antt =====
-- src/harness/storage/file.ts: the state backend on the file system. Each operation runs under a
-- file lock, so it is one step on the directory that it reads and writes. Times are milliseconds;
-- each reading of the clock is an argument.
pub mod Documents
pub mod Events
pub mod Leases
pub mod Capacity
pub mod Queues
pub mod Locks
