-- ===== src/Harness.antt =====
-- src/harness: the loop that runs an agent in a workspace, and its tools.
pub mod Executor
pub mod Events
pub mod GitCommit
pub mod Tools
pub mod Run
pub mod Triples
pub mod Options
pub mod Agents
pub mod Turn
pub mod Loop
