-- ===== src/Tests.antt =====
-- Runs of the modelled code on concrete inputs: one module for each part of the program.
mod Worlds
pub mod Bets
pub mod Money
pub mod Ledger
pub mod Operator
pub mod Election
pub mod Fairness
pub mod Engine
pub mod Slots
pub mod Reports
pub mod Epochs
pub mod Sessions
