-- ===== src/Web.antt =====
-- web/: what the web application decides outside its pages.
pub mod Routing
pub mod Invites
pub mod Proxy
pub mod Limits
pub mod Relay
mod Tests
