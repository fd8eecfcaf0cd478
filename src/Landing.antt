-- ===== src/Landing.antt =====
-- packages/core/src/anchor/landing.ts: ownerless accounts between an anchor and a wallet.
pub mod Defs
pub mod Runs
mod Triples
pub mod Build
pub mod Submit
pub mod Create
mod Tests
