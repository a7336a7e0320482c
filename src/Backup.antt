-- ===== src/Backup.antt =====
-- internal/controller/pvcbackup_controller.go
pub mod Spec
pub mod Schedule
pub mod Quiesce
pub mod Host
pub mod Jobs
pub mod Secrets
pub mod Outcomes
pub mod Poll
pub mod Run
pub mod Reconcile
pub mod Traces
pub mod Concurrent
