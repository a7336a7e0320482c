-- ===== src/Sync/Laws.antt =====
-- When a repository is called Ready, and what a plan does to its backup.
pub mod Saved
pub mod Ready
pub mod Retries
