-- ===== src/Capi.antt =====
-- Package internal/capi, which carries decisions out on Machines.
pub mod Note
pub mod Guard
pub mod Coverage
pub mod Actuator
