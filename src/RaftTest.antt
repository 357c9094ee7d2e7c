-- ===== src/RaftTest.antt =====
-- src/raft/config.go: what the tests of Raft check, and how they cut servers off.
pub mod Logs
pub mod Agreement
pub mod Counting
pub mod Cluster
pub mod Wiring
pub mod Linking
mod Examples
