-- ===== src/Scheduler/Runner/Outcome.antt =====
-- How a run ends: what becomes of the job's row, and of the lease on it.

use fleetward.Base.{
  ℕ, ◌≡◌, refl, ◌∙◌, true, false, List, some, String, if◌then◌else◌, holds, row, ◌≢◌,
}
use fleetward.Scheduler.Rows.{Kind, JobState, Job}
use fleetward.Scheduler.Lease.{ClaimedJob, close_job}
use fleetward.Scheduler.Jobs.{mark_succeeded}
use fleetward.Scheduler.Runner.Settled.{
  settled, settle-row, settle-other, held_by, finish_lets_go, settle_lets_go,
}
use fleetward.Scheduler.Runner.{
  JobPayload, decode_payload, Result, ok, err, Runner, Json, World, should_verify, enqueue_verify,
  backup_request, after_backup, run_backup, dispatch, run_decoded, run_job,
}

queueing_refused :
    (json : Json) (w : World) (job : ClaimedJob) (p : JobPayload) (message : String)
    → should_verify w.draw p ≡ true
    → w.insert_error ≡ some message
    → (r : List Job × Result String) {backup_id : String} → r.1 ≡ ok backup_id
    → after_backup json w job p r ≡ (r.0, err message)
unfolding enqueue_verify
queueing_refused json w job p message v e (after, err _) h = cc
queueing_refused json w job p message v e (after, ok b) h = rw (v, e)

module _ (json : Json) (w : World) (runner : Runner) (owner : ℕ) (job : ClaimedJob)
    (jobs : List Job) where
  -- The outcome that a run with a readable payload writes is its work's. While the process still
  -- holds the lease, the row is failed with the work's error, or closed as succeeded if nothing
  -- else closes jobs of its kind, or else only let go, as the service wrote it. A row that it no
  -- longer holds keeps what it says, the row of every other job is as the work left it, and a run
  -- whose heartbeat found the lease lost leaves the whole table as its work left it.
  pub run_settles :
      (p : JobPayload) (n : Job)
      → decode_payload json job.payload ≡ ok p
      → row (λ j. j.id) job.id (dispatch json w runner job.kind job p jobs).0 ≡ some n
      → let work = dispatch json w runner job.kind job p jobs in
        (row (λ j. j.id) job.id (run_job json w runner owner false job jobs)
          ≡ some (if holds n.lease_owner owner then settled w.now job.kind work.1 n else n))
        × ((other : ℕ)
            → other ≢ job.id
            → row (λ j. j.id) other (run_job json w runner owner false job jobs)
              ≡ row (λ j. j.id) other work.0)
        × (run_job json w runner owner true job jobs ≡ work.0)
  unfolding run_job
  run_settles p n decoded here = rw decoded (
    settle-row w.now owner job (dispatch json w runner job.kind job p jobs).0
        (dispatch json w runner job.kind job p jobs).1 here,
    (λ other apart.
        settle-other w.now owner other job (dispatch json w runner job.kind job p jobs).0
          (dispatch json w runner job.kind job p jobs).1 apart),
    refl,
  )

  decoded_lets_go :
      (r : Result JobPayload)
      → held_by owner (row (λ j. j.id) job.id (run_decoded json w runner owner false job r jobs))
        ≡ false
  decoded_lets_go (err message) = finish_lets_go job.id owner JobState.failed message w.now jobs
  decoded_lets_go (ok p) =
      let work = dispatch json w runner job.kind job p jobs in
      settle_lets_go w.now owner job work.0 work.1

  -- A run that ends, well or badly, with a readable payload or without, does not go on holding the
  -- lease.
  pub run_lets_go :
      held_by owner (row (λ j. j.id) job.id (run_job json w runner owner false job jobs)) ≡ false
  unfolding run_job
  run_lets_go = decoded_lets_go (decode_payload json job.payload)

  -- A backup that its service has recorded as succeeded, and that is to be verified, ends as
  -- failed in `jobs` when the queueing of its verification meets a database error while the
  -- process holds the lease: the run closes the job over the service's verdict.
  pub queueing_failure_overwrites_success :
      (p : JobPayload) (backup_id message : String) (n : Job) (recorded : ℕ)
      → decode_payload json job.payload ≡ ok p
      → job.kind ≡ Kind.backup
      → should_verify w.draw p ≡ true
      → w.insert_error ≡ some message
      → (runner.run_backup_job (backup_request job p) jobs).1 ≡ ok backup_id
      → row (λ j. j.id) job.id (runner.run_backup_job (backup_request job p) jobs).0
        ≡ some (mark_succeeded recorded n)
      → holds n.lease_owner owner ≡ true
      → row (λ j. j.id) job.id (run_job json w runner owner false job jobs)
        ≡ some (close_job JobState.failed message w.now (mark_succeeded recorded n))
  unfolding dispatch run_backup enqueue_verify
  queueing_failure_overwrites_success p backup_id message n recorded decoded k v e r here mine =
      let refused : dispatch json w runner job.kind job p jobs
          ≡ ((runner.run_backup_job (backup_request job p) jobs).0, err message) =
        rw k (
          queueing_refused json w job p message v e
            (runner.run_backup_job (backup_request job p) jobs) r) in
      let at_dispatch : row (λ j. j.id) job.id (dispatch json w runner job.kind job p jobs).0
          ≡ some (mark_succeeded recorded n) =
        rw refused here in
      (run_settles p (mark_succeeded recorded n) decoded at_dispatch).0 ∙ rw (refused, mine)
