-- ===== src/Bets.antt =====
-- game/bets.service.ts: all money-moving operations on bets. Each handler is a program: what the
-- engine shows of the round (`view`, possibly a follower's stale cache) and the live multiplier
-- are arguments, the money source is a `WalletProvider`.
pub mod Types
pub mod Updates
pub mod Place
pub mod Cancel
pub mod CashOut
pub mod Settle
pub mod Void
pub mod Reconcile
pub mod Keeps
pub mod Exposure
