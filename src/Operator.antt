-- ===== src/Operator.antt =====
-- operator/: what an operator configures for its sessions, and how it rides the play token.
pub mod Rg
pub mod Limits
pub mod Launch
pub mod Sessions
