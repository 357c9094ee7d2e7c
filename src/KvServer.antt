-- ===== src/KvServer.antt =====
-- src/kvsrv: the key/value server with its duplicate table, and the clerk that retries.
pub mod Server
pub mod Clerk
pub mod Duplicates
mod Examples
