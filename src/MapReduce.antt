-- ===== src/MapReduce.antt =====
-- src/mr, src/mrapps and src/main/mrsequential.go: the coordinator, the workers, two plugins, and the
-- sequential program.
pub mod Tasks
pub mod Coordinator
pub mod Lists
pub mod Invariant
pub mod Job
pub mod Timers
pub mod Phases
pub mod Worker
pub mod Places
pub mod Results
pub mod Apps
pub mod Plugins
pub mod Reports
pub mod Loop
pub mod Resting
pub mod Answers
pub mod Expiring
pub mod Lone
pub mod Sequential
mod Runs
mod Examples
mod PluginRuns
