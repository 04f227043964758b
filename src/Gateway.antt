-- ===== src/Gateway.antt =====
-- The OpenClaw gateway side: what its frames say, and which of them reach the phone.
pub mod ErrorClassifier
pub mod ResponseText
pub mod Deduper
pub mod Device
pub mod Dispatch
pub mod Client
pub mod Shared
pub mod Fallback
