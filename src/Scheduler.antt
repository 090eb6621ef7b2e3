-- ===== src/Scheduler.antt =====
-- internal/controlplane/scheduler: what comes due, who runs it, and what becomes of it.
pub mod Rows
pub mod Lease
pub mod Reaper
pub mod Jobs
pub mod Runner
pub mod Cron
pub mod Schedules
pub mod Materialize
mod Examples
