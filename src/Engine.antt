-- ===== src/Engine.antt =====
-- game/game-engine.service.ts: the leader's loop over the phases of a round, and what a new leader
-- does with what the last one left.
pub mod Phases
pub mod Recovery
