-- ===== src/Porcupine/Exact.antt =====
-- src/porcupine/checker.go: checkSingle against the plain search of `Reference`.
pub mod Defs
pub mod Noting
pub mod Rounds
pub mod Pop
pub mod Push
pub mod Total
pub mod Start
pub mod Check
pub mod Verdict
