-- ===== src/Fairness.antt =====
-- fairness/: where a round's crash point comes from.
pub mod Crash
pub mod Chain
pub mod Oracle
pub mod Salt
pub mod Boot
pub mod Epochs
