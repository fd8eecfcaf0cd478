-- ===== src/Core.antt =====
-- packages/core: the contract's rule model, its limits, permissions, templates and codec.
pub mod Decimal
pub mod Amount
pub mod SecretGuard
pub mod Schema
pub mod Validate
pub mod Permissions
pub mod Templates
pub mod Codec
pub mod Swap
mod Tests
