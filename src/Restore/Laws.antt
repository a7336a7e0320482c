-- ===== src/Restore/Laws.antt =====
-- What restores do to workloads, backups and their own status.
pub mod Down
pub mod Conflict
pub mod Recorded
