-- ===== src/Controller.antt =====
-- Package internal/controller: the reconciler of a workload cluster's signals.
pub mod Mode
pub mod State
pub mod Waits
pub mod Plan
pub mod Remediate
pub mod Handle
pub mod Answers
pub mod Release
pub mod Memory
pub mod Loop
pub mod Reconcile
pub mod Writes
pub mod PassWrites
pub mod Safety
pub mod Steps
pub mod Replace
pub mod Watches
