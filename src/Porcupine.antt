-- ===== src/Porcupine.antt =====
-- src/porcupine: histories, their entries, and the search of the checker with its linked
-- list, bit sets and cache, and what runs it on the parts of a history.
pub mod History
pub mod Order
pub mod Renumber
pub mod Links
pub mod Restore
pub mod Bitset
pub mod Bits
pub mod Cache
pub mod Search
pub mod Items
pub mod Chain
pub mod Lifting
pub mod Reference
pub mod Pairs
pub mod Live
pub mod Exact
pub mod Linear
pub mod Parallel
pub mod Api
pub mod Selecting
pub mod Verdicts
pub mod Complete
pub mod Sorted
pub mod Balanced
pub mod Ranked
pub mod Orders
pub mod Operations
pub mod Runs
mod InsertSort
mod Checks
mod Examples
