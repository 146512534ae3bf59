-- ===== src/Quarantine.antt =====
-- Package internal/quarantine: the devices of a Machine's workload are taken out of scheduling, so
-- that the Machine can be replaced.
pub mod Device
pub mod Client
pub mod Try
pub mod Request
pub mod Naming
pub mod Rules
pub mod Steps
pub mod Locator
pub mod Adds
pub mod Confirmed
pub mod Reads
pub mod Runs
pub mod Leaves
