-- ===== src/Model.antt =====
-- web/lib/model and web/lib/landing: the rules as people say them.
pub mod Tokens
pub mod Rules
pub mod Evaluate
pub mod Mapping
pub mod Engine
pub mod Pairing
pub mod SaveSteps
pub mod Capital
pub mod History
pub mod Tally
pub mod Editing
mod Tests
