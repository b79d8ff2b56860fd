-- ===== src/Manager/Apply.antt =====
-- `apply` and `restart`: how a configuration snapshot replaces the running services, and how a file
-- event restarts one.
pub mod Stage
pub mod Commit
pub mod Atomic
pub mod Progress
