-- ===== src/Scheduler/Reaper.antt =====
-- internal/controlplane/scheduler/lease.go, `reap`: the jobs whose runner stopped reporting, and the
-- rows that they orphaned.
pub mod Orphans
pub mod Exact
use fleetward.Base.{
  ℕ, zero, suc, ◌+◌, ◌-◌, ◌*◌, ◌≤◌, ◌<◌, ◌≡◌, refl, sym, ap, subst, ◌∙◌, ◌≢◌, ◌↔◌, ◌⊎◌, inl, inr,
  Bool, true, false, not, ◌&&◌, ◌||◌, List, [], ◌∷◌, ◌++◌, map, Option, none, some, String, arith,
  ltb, leb, ◌==◌, if◌then◌else◌, eq→==, ==→eq, ne→==, ltb→lt, Bool-cases, Option-cases, holds,
  is_some, length, All, All-map, All-update, exists, where_rows, update, affected, update-All,
  update-none, row, row-update, row-none, row-keyed, row-key, row-update-some, row-update-none,
  row-update_ne, IsKeyed, IsKeyed-update,
}
use fleetward.Scheduler.Rows.{
  JobState, is_running, Job, BackupState, BackupRow, VerificationState, VerificationRow,
}
use fleetward.Scheduler.Lease.{close_job}

-- The tables that one reap writes, in one transaction.
pub record Db : Type 0 where
  pub jobs : List Job
  pub backups : List BackupRow
  pub verifications : List VerificationRow

abbrev pub reap_message : String
reap_message =
    "the runner holding this job's lease stopped reporting; the job was closed rather than re-run, and the next scheduled run will proceed normally"

abbrev pub has_expired : Option ℕ → ℕ → Bool
has_expired none now = false
has_expired (some t) now = ltb t now

abbrev pub is_abandoned : ℕ → Job → Bool
is_abandoned now j = is_running j.state && has_expired j.lease_expires_at now

-- `job_id = ANY($1)`, where a NULL matches nothing.
abbrev pub is_any : List ℕ → Option ℕ → Bool
is_any ids none = false
is_any ids (some id) = exists (λ i. i == id) ids

abbrev pub is_open_backup : BackupState → Bool
is_open_backup BackupState.pending = true
is_open_backup BackupState.running = true
is_open_backup _ = false

abbrev pub is_open_verification : VerificationState → Bool
is_open_verification VerificationState.pending = true
is_open_verification VerificationState.running = true
is_open_verification _ = false

abbrev pub is_orphaned_backup : List ℕ → BackupRow → Bool
is_orphaned_backup ids b = is_any ids b.job_id && is_open_backup b.state

abbrev pub is_orphaned_verification : List ℕ → VerificationRow → Bool
is_orphaned_verification ids v = is_any ids v.job_id && is_open_verification v.status

abbrev pub fail_backup : ℕ → BackupRow → BackupRow
fail_backup now b = record b {
  state = BackupState.failed;
  error_message = reap_message;
  completed_at = some now;
  updated_at = now;
}

abbrev pub conclude_verification : ℕ → VerificationRow → VerificationRow
conclude_verification now v = record v {
  status = VerificationState.inconclusive;
  error_message = reap_message;
  completed_at = some now;
  updated_at = now;
}

-- RETURNING id.
abbrev pub abandoned_ids : ℕ → List Job → List ℕ
abandoned_ids now jobs = map (λ j. j.id) (where_rows (is_abandoned now) jobs)

-- The first of the three statements.
abbrev pub reap_jobs : ℕ → List Job → List Job
reap_jobs now jobs = update (is_abandoned now) (close_job JobState.failed reap_message now) jobs

-- The early return on no rows commits a transaction that changed nothing. The statements that
-- would follow it change nothing either, and the code does not send them.
unfoldable pub reap : ℕ → Db → Db × ℕ
reap now db =
    let ids = abandoned_ids now db.jobs in
    let jobs = reap_jobs now db.jobs in
    if length ids == 0 then (record db { jobs = jobs }, 0) else (
      record {
        jobs = jobs;
        backups = update (is_orphaned_backup ids) (fail_backup now) db.backups;
        verifications =
            update (is_orphaned_verification ids) (conclude_verification now) db.verifications;
      },
      length ids,
    )
