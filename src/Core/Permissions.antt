-- ===== src/Core/Permissions.antt =====
-- The permissions of an autopilot: their definition, the calls that actions make, and the laws.
pub mod Defs
pub mod Calls
pub mod Sets
pub mod Actions
pub mod Exact
pub mod Grant
