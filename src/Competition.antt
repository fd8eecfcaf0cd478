-- ===== src/Competition.antt =====
-- packages/core/src/competition.ts: the scoring of the trading competition.
pub mod Chunks
pub mod Value
pub mod Moves
pub mod Flags
pub mod Rank
mod Tests
