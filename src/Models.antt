-- ===== src/Models.antt =====
-- src/models: the key/value model that the linearizability checker is given, and src/porcupine's types.
pub mod Kv
pub mod Service
pub mod Partition
mod Examples
