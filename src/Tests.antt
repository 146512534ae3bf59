-- ===== src/Tests.antt =====
-- The theorems at concrete inputs.
mod Samples
mod Examples
mod Passes
mod Depot
mod Replacing
mod Starting
