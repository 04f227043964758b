-- ===== src/Examples.antt =====
-- Runs of the models at concrete inputs, and the theorems at them.
pub mod Guarding
pub mod Replies
pub mod Repairs
pub mod Turns
pub mod Sessions
pub mod Merging
pub mod World
pub mod Rooms
pub mod Devices
pub mod Greetings
pub mod Bridges
