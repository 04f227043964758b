-- ===== src/Guards.antt =====
-- securityGuards.js: what a signed request and a register response must satisfy.
pub mod Payload
pub mod Request
pub mod Register
