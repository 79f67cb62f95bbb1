-- ===== src/Verify.antt =====
-- core/verify: the checkers that a run's outcome goes through, with the report of domain/verify.go.
pub mod Report
pub mod Checksum
pub mod Log
pub mod Writer
pub mod Reconcile
pub mod History
pub mod Register
pub mod Elle
pub mod Examples
