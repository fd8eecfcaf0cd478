-- ===== src/Core/Codec.antt =====
-- packages/core/src/codec.ts: an autopilot as a contract value, and back.
pub mod Native
pub mod Encode
pub mod Decode
pub mod RoundTrip
pub mod Total
