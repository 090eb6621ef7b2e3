-- ===== src/Scheduler/Rows.antt =====
-- The rows the scheduler reads and writes: `jobs`, and the columns of `backups` and
-- `verifications` that a reap closes. A UUID is a number, an instant a count of microseconds, a
-- nullable column an `Option`.
use fleetward.Base.{ℕ, Option, Bool, true, false, String}

-- The CHECK constraint on `jobs.kind`.
pub data Kind : Type 0 where
  backup verify restore discovery metrics observe : Kind

-- The CHECK constraint on `jobs.state`.
pub data JobState : Type 0 where
  pending running succeeded failed canceled : JobState

abbrev pub is_pending : JobState → Bool
is_pending JobState.pending = true
is_pending _ = false

abbrev pub is_running : JobState → Bool
is_running JobState.running = true
is_running _ = false

pub record Job : Type 0 where
  pub id : ℕ
  pub tenant_id : ℕ
  pub schedule_id : Option ℕ
  pub instance_id : ℕ
  pub kind : Kind
  pub state : JobState
  pub payload : String
  pub scheduled_for : ℕ
  pub lease_owner : Option ℕ
  pub lease_expires_at : Option ℕ
  pub heartbeat_at : Option ℕ
  pub attempts : ℕ
  pub started_at : Option ℕ
  pub finished_at : Option ℕ
  pub error_message : String
  pub updated_at : ℕ

-- The CHECK constraint on `backups.state`, as migration 000002 widened it.
pub data BackupState : Type 0 where
  pending running succeeded failed canceled expired unknown : BackupState

pub record BackupRow : Type 0 where
  pub id : ℕ
  pub job_id : Option ℕ
  pub state : BackupState
  pub error_message : String
  pub completed_at : Option ℕ
  pub updated_at : ℕ

-- The CHECK constraint on `verifications.status`.
pub data VerificationState : Type 0 where
  pending running verified failed inconclusive : VerificationState

pub record VerificationRow : Type 0 where
  pub id : ℕ
  pub job_id : Option ℕ
  pub status : VerificationState
  pub error_message : String
  pub completed_at : Option ℕ
  pub updated_at : ℕ
