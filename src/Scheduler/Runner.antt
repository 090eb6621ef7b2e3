-- ===== src/Scheduler/Runner.antt =====
-- internal/controlplane/scheduler/runner.go: one claimed job from its payload to its outcome, and
-- the verification that a backup queues. The backup service and the engines behind `Runner` are a
-- parameter, which may write the table as it likes.
pub mod Settled
pub mod Outcome
pub mod Policy
mod Examples
use text.Mathlib.Text.{◌==◌ as str_eq}
use fleetward.Base.{
  ℕ, zero, suc, ◌+◌, ◌-◌, ◌*◌, ◌≤◌, ◌<◌, ◌≡◌, refl, sym, ap, subst, ◌∙◌, ◌≢◌, ◌↔◌, ◌⊎◌, inl, inr,
  Bool, true, false, not, ◌&&◌, ◌||◌, List, [], ◌∷◌, ◌++◌, map, Option, none, some, String, arith,
  ltb, leb, ◌==◌, if◌then◌else◌, eq→==, ==→eq, ne→==, ltb→lt, Bool-cases, Option-cases, ℤ, pos,
  negsuc, pos_part, neg_part, is_positive, holds, is_some, length, All, All-map, All-update,
  All-append, length-append, All-true, exists, where_rows, update, affected, update-All,
  update-none, row, row-update, row-none, row-keyed, row-key, row-update-some, row-update-none,
  row-update_ne, affected-row, affected-row-none, IsKeyed, IsKeyed-update,
}
use fleetward.Scheduler.Rows.{Kind, JobState, Job}
use fleetward.Scheduler.Lease.{ClaimedJob, finish, release}
use fleetward.Scheduler.Jobs.{insert_job, queued_job}

-- internal/controlplane/scheduler/service.go.
pub record JobPayload : Type 0 where
  pub method_id : String
  pub options : List (String × String)
  pub verify_policy : String
  pub verify_sample_percent : ℤ
  pub retention_days : ℤ
  pub backup_id : String

abbrev pub empty_payload : JobPayload
empty_payload = record {
  method_id = "";
  options = [];
  verify_policy = "";
  verify_sample_percent = pos 0;
  retention_days = pos 0;
  backup_id = "";
}

-- A Go value with its error, which is a message.
pub data Result {ℓ} (A : Type ℓ) : Type ℓ where
  ok : A → Result A
  err : String → Result A

pub record BackupJob : Type 0 where
  pub job_id : ℕ
  pub schedule_id : Option ℕ
  pub instance_id : ℕ
  pub method_id : String
  pub options : List (String × String)
  pub retention_days : ℤ

pub record VerificationJob : Type 0 where
  pub job_id : ℕ
  pub backup_id : String

pub record InstanceJob : Type 0 where
  pub job_id : ℕ
  pub instance_id : ℕ

-- A call of another component: what becomes of the table meanwhile, and what it returns.
abbrev pub Call : Type 0 → Type 0
Call A = List Job → List Job × Result A

-- The methods of `Runner` that are jobs.
pub record Runner : Type 0 where
  pub run_backup_job : BackupJob → Call String
  pub run_verification_job : VerificationJob → Call (Unit {0})
  pub run_observation_job : InstanceJob → Call (Unit {0})
  pub run_discovery_job : InstanceJob → Call (Unit {0})

-- encoding/json, by which the service encodes payloads and decodes those that are not empty; the
-- error is the message that the service makes of it.
pub record Json : Type 0 where
  pub encode : JobPayload → String
  pub decode : String → Result JobPayload

-- A job without a payload has an empty one.
unfoldable pub decode_payload : Json → String → Result JobPayload
decode_payload json raw = if str_eq raw "" then ok empty_payload else json.decode raw

-- What a run meets and does not decide: the clock, the random draw below 100, the id that the
-- database gives the queued job and the error, if any, with which it refuses the insert.
pub record World : Type 0 where
  pub now : ℕ
  pub draw : ℕ
  pub new_id : ℕ
  pub insert_error : Option String

-- `rand.Int32N(100) < percent`, for a percentage between 1 and 99.
abbrev pub sampled : ℕ → ℤ → Bool
sampled draw (negsuc n) = false
sampled draw (pos zero) = false
sampled draw (pos (suc n)) = leb 100 (suc n) || ltb draw (suc n)

unfoldable pub should_verify : ℕ → JobPayload → Bool
should_verify draw p =
    if str_eq p.verify_policy "sampled"
    then sampled draw p.verify_sample_percent
    else not (str_eq p.verify_policy "manual")

abbrev pub inserted : List Job → Option (List Job) → List Job × Result (Unit {0})
inserted jobs none = (jobs, ok tt)
inserted jobs (some after) = (after, ok tt)

-- A unique violation is no error: a verification of this instance is already on its way.
abbrev pub insert_outcome : Option String → Job → List Job → List Job × Result (Unit {0})
insert_outcome (some message) j jobs = (jobs, err message)
insert_outcome none j jobs = inserted jobs (insert_job j jobs)

-- The kinds that write no row about the job, so that nothing else closes it.
abbrev pub closes_itself : Kind → Bool
closes_itself Kind.observe = true
closes_itself Kind.discovery = true
closes_itself _ = false

abbrev pub settle_ok : ℕ → ℕ → ClaimedJob → List Job → List Job
settle_ok now owner job jobs =
    let closed =
      if closes_itself job.kind then finish job.id owner JobState.succeeded "" now jobs else jobs in
    release job.id owner now closed

-- From the end of the work on. `lost` says whether a heartbeat found the lease gone meanwhile.
abbrev pub settle : ℕ → ℕ → Bool → ClaimedJob → List Job × Result (Unit {0}) → List Job
settle now owner true job (jobs, result) = jobs
settle now owner false job (jobs, err message) =
    finish job.id owner JobState.failed message now jobs
settle now owner false job (jobs, ok _) = settle_ok now owner job jobs

-- What `runBackup` asks of the service.
abbrev pub backup_request : ClaimedJob → JobPayload → BackupJob
backup_request job p = record {
  job_id = job.id;
  schedule_id = job.schedule_id;
  instance_id = job.instance_id;
  method_id = p.method_id;
  options = p.options;
  retention_days = p.retention_days;
}

module _ (json : Json) (w : World) where
  unfoldable pub enqueue_verify : ClaimedJob → String → Call (Unit {0})
  enqueue_verify job backup_id jobs =
      insert_outcome w.insert_error
        (queued_job w.new_id job.tenant_id job.schedule_id job.instance_id Kind.verify
          (json.encode (record empty_payload { backup_id = backup_id })) w.now)
        jobs

  abbrev pub after_backup :
      ClaimedJob → JobPayload → List Job × Result String → List Job × Result (Unit {0})
  after_backup job p (jobs, err message) = (jobs, err message)
  after_backup job p (jobs, ok backup_id) =
      if should_verify w.draw p then enqueue_verify job backup_id jobs else (jobs, ok tt)

  module _ (runner : Runner) where
    unfoldable pub run_backup : ClaimedJob → JobPayload → Call (Unit {0})
    run_backup job p jobs = after_backup job p (runner.run_backup_job (backup_request job p) jobs)

    unfoldable pub run_verify : ClaimedJob → JobPayload → Call (Unit {0})
    run_verify job p jobs =
        if str_eq p.backup_id ""
        then (jobs, err "scheduler: this verify job names no backup")
        else runner.run_verification_job (record { job_id = job.id; backup_id = p.backup_id }) jobs

    -- The switch on the job's kind.
    unfoldable pub dispatch : Kind → ClaimedJob → JobPayload → Call (Unit {0})
    dispatch Kind.backup job p jobs = run_backup job p jobs
    dispatch Kind.verify job p jobs = run_verify job p jobs
    dispatch Kind.observe job p jobs =
        runner.run_observation_job (record { job_id = job.id; instance_id = job.instance_id }) jobs
    dispatch Kind.discovery job p jobs =
        runner.run_discovery_job (record { job_id = job.id; instance_id = job.instance_id }) jobs
    dispatch Kind.restore job p jobs =
        (jobs, err "unsupported: the scheduler does not run \"restore\" jobs")
    dispatch Kind.metrics job p jobs =
        (jobs, err "unsupported: the scheduler does not run \"metrics\" jobs")

    abbrev pub run_decoded : ℕ → Bool → ClaimedJob → Result JobPayload → List Job → List Job
    run_decoded owner lost job (err message) jobs =
        finish job.id owner JobState.failed message w.now jobs
    run_decoded owner lost job (ok p) jobs =
        settle w.now owner lost job (dispatch job.kind job p jobs)

    unfoldable pub run_job : ℕ → Bool → ClaimedJob → List Job → List Job
    run_job owner lost job jobs = run_decoded owner lost job (decode_payload json job.payload) jobs
