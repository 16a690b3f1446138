-- ===== src/Reporting.antt =====
-- operator/reporting-query.ts and operator/reporting.service.ts: the reports that an operator reads
-- of its own bets. They only read, so they are functions of the rows.
pub mod Stats
pub mod Wallets
pub mod Summary
pub mod Daily
pub mod Query
pub mod Transaction
