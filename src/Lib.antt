-- ===== src/Lib.antt =====
-- Vault Run: the server of a crash game, in which a multiplier climbs until the round crashes and a
-- bet is won if it is cashed out before. The parts, and the files that model them:
--
-- - src/game/bets.service.ts, all moves of money on bets: Bets. A handler such as `placeBet` is
--   Bets/Place.place_bet, `cancelBet` Bets/Cancel, `cashOut` and `evaluateAutoCashouts` Bets/CashOut,
--   `settleRound` Bets/Settle, `voidBet` and its sweep Bets/Void, the payout sweep Bets/Reconcile.
-- - src/game/risk.service.ts, the house's limits: Risk. src/common/money.ts and bet-status.ts: Money.
--   Decimal has the language's texts of numbers, which the claims of the tokens carry.
-- - src/wallet/ledger.service.ts, the journal with a cached balance: Wallet/Ledger.
--   seamless-operator-wallet.ts: Wallet/Seamless. wallet-rollback.service.ts: Wallet/Rollbacks.
--   wallet-router.ts: Wallet/Router. They all fill the record Wallet/Provider.WalletProvider, of
--   wallet-provider.ts, which the bets and the engine take as a parameter.
-- - src/game/game-engine.service.ts: Engine/Phases for the transitions of a round, Engine/Recovery for
--   what a starting leader and the sweeps do with what was left behind.
-- - src/ha/election.service.ts and pg-advisory-lock.ts: Election.
-- - src/fairness/: Fairness. crash.ts and seed-chain.ts are Crash and Chain, eth-block.ts is Oracle,
--   salt.provider.ts Salt, fairness.module.ts (the boot guard) Boot, and fairness.service.ts Epochs:
--   `createEpoch` in Epochs, `allocateSeed` and `maintain` in Epochs/Serving, what the public is
--   shown in Epochs/Views.
-- - src/operator/reporting.service.ts and reporting-query.ts: Reporting.
-- - src/operator/rg-config.ts and bet-limits.ts: Operator/Rg and Operator/Limits.
--   launch-token.service.ts: Operator/Launch. game-session.service.ts: Operator/Sessions for
--   `openFromToken`, Operator/Sessions/Upkeep for reality checks, revocation and the mode of a wallet.
-- - prisma/schema.prisma, the tables: World/State and World/Tables.
--
-- How the code is read. A handler is a program (Prog): a tree of atomic actions on the tables, of
-- which one is a single SQL statement, a `$transaction` that holds its lock, or a call to the
-- operator. `run` runs one program alone; Prog/Schedule interleaves any number of them, action by
-- action, so a theorem on interleavings covers every order in which requests, sweeps and nodes may
-- meet. `Keeps` says that every action of a program keeps an invariant, `Throws` what it may throw, in
-- whatever states it meets, and `Safe` what its answer promises while other programs act, as far as
-- they leave what it has seen. Calls lists the calls on bets and wallets that are made and runs them
-- side by side, and Fairness/Epochs/Serving does so for the epochs, whose `maintain` the engine does
-- not wait for. The sessions have a state of their own, on which an atomic action is a function; there
-- the data type Reached holds the states that any sequence of actions leads to.
--
-- Ids and instants (in ms) are numbers, money is minor units, a multiplier is in hundredths, as the
-- `Decimal(10,2)` columns keep it: the rounding of a floating point multiplier to hundredths is not
-- modelled. BigInt and the numbers of the source do not wrap around, so they are unbounded here; a
-- signed amount is an integer. Keys that the source builds as texts are constructors, one for each
-- template. A program is a tree of finite depth and every loop of it is
-- over a list that was read or over the attempts that are left, so every handler ends and no fuel is
-- used, but for the digits of a number, where the number itself is enough.
--
-- The database may fail where the code handles it: `may_fail` reads a list of faults of the state.
-- The operator's answers are a list of the state. Neither is constrained in the theorems unless they
-- say so. Hash functions, HMAC, session lookups, the lookup of a wallet's mode, the engine's calls for
-- a seed, what an RPC answers, and the delay of a crash are parameters.
--
-- Not modelled: the gateway and the controllers, logs, the ages that gauges report, the Redis mirror
-- and the follower's cache (what a node shows of a round is an arbitrary argument), the live
-- multiplier, timers, the retry of a failed transition, a transition that overlaps another,
-- `resumeRound`, the parsing of environment variables but for the oracle's, and the signatures of
-- tokens.
pub mod Prelude
pub mod Prog
pub mod World
pub mod Money
pub mod Risk
pub mod Wallet
pub mod Bets
pub mod Calls
pub mod Decimal
pub mod Election
pub mod Engine
pub mod Fairness
pub mod Operator
pub mod Reporting
pub mod Tests
