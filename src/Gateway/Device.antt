-- ===== src/Gateway/Device.antt =====
-- gatewayDeviceIdentity.js: the identity by which the program is known to the gateway.
pub mod Payload
pub mod State
