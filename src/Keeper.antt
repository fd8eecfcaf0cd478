-- ===== src/Keeper.antt =====
-- keeper/src/keeper.ts: the loop that ticks every autopilot of every wallet.
pub mod State
pub mod Plan
pub mod Submit
pub mod Grants
pub mod Pass
mod Tests
