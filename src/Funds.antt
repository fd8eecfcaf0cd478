-- ===== src/Funds.antt =====
-- packages/core/src/funds.ts: money from and to a bank, through a landing account.
pub mod State
pub mod Amount
pub mod Advance
pub mod Laws
pub mod Runs
pub mod Funded
mod Tests
