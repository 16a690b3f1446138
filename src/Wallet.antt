-- ===== src/Wallet.antt =====
-- The wallet side of the money path: what the game asks of a money source (wallet/wallet-provider.ts)
-- and the sources that answer it.
pub mod Provider
pub mod Ledger
pub mod Rollbacks
pub mod Seamless
pub mod Router
