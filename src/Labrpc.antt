-- ===== src/Labrpc.antt =====
-- src/labrpc/labrpc.go: servers and their services, the network's settings, and calls under way.
pub mod Server
pub mod Network
pub mod Calls
pub mod World
pub mod Account
pub mod Replies
pub mod Dead
pub mod Reliable
pub mod Ways
pub mod Ending
mod Examples
