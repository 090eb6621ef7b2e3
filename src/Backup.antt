-- ===== src/Backup.antt =====
-- internal/controlplane/backup: the artifacts that the control plane keeps, and for how long.
pub mod Retention
pub mod Adherence
pub mod Runs
pub mod Observe
pub mod System
mod Shelf
