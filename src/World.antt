-- ===== src/World.antt =====
-- The shared state of the service: the tables of prisma/schema.prisma that the money path reads
-- and writes, the clock, the generated ids, the operator's answers, and what is reported.
mod Types
mod State
pub mod Tables
pub mod Keeps
pub use Types.*
pub use State.*
