-- ===== src/Traction.antt =====
-- packages/core/src/traction.ts: who uses Koul and how much, from the router's events.
pub mod State
pub mod Apply
pub mod Overlap
pub mod Balance
pub mod Groups
pub mod Summary
pub mod Split
pub mod Days
mod Tests
