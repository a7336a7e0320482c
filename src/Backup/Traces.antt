-- ===== src/Backup/Traces.antt =====
-- What every run of the PVCBackup controller keeps, for all answers of the environment.
pub mod Plain
pub mod Snapshots
pub mod Scaling
pub mod Runs
pub mod Jobs
pub mod Prune
pub mod Forgets
