-- ===== src/Raft.antt =====
-- src/raft: one Raft peer. `State` holds its data, `Election` and `Replication` the handlers and the
-- goroutines as functions on that state, `Steps` the steps of a running peer; the other modules are
-- about these.
pub mod State
pub mod Persister
pub mod Election
pub mod Replication
pub mod Steps
pub mod Terms
pub mod Commit
pub mod Apply
pub mod Votes
pub mod Health
pub mod Retreat
pub mod Copying
pub mod Bounds
mod Examples
