-- ===== src/Scheduler/Jobs.antt =====
-- The other statements that write `jobs`: the inserts of runner.go and of the backup service, under
-- the unique indexes of the table, and the service's own account of how a run ended.
pub mod Active
pub mod Trace
pub mod Once
pub mod Ghost
pub mod Orphan
use fleetward.Base.{
  ℕ, zero, suc, ◌+◌, ◌-◌, ◌*◌, ◌≤◌, ◌<◌, ◌≡◌, refl, sym, ap, subst, ◌∙◌, ◌≢◌, ◌↔◌, ◌⊎◌, inl, inr,
  Bool, true, false, not, ◌&&◌, ◌||◌, List, [], ◌∷◌, ◌++◌, map, Option, none, some, String, arith,
  ltb, leb, ◌==◌, if◌then◌else◌, eq→==, ==→eq, ne→==, ltb→lt, Bool-cases, Option-cases, ℤ, pos,
  negsuc, pos_part, neg_part, is_positive, holds, is_some, length, All, All-map, All-update,
  All-true, exists, where_rows, update, affected, update-All, update-none, row, row-update,
  row-none, row-keyed, row-key, row-update-some, row-update-none, row-update_ne, IsKeyed,
  IsKeyed-update,
}
use fleetward.Scheduler.Rows.{Kind, JobState, Job}
use fleetward.Scheduler.Lease.{Duration, ClaimedJob, claim, renew, release, finish}
use fleetward.Scheduler.Reaper.{reap_jobs}

unfoldable pub kind_number : Kind → ℕ
kind_number Kind.backup = 0
kind_number Kind.verify = 1
kind_number Kind.restore = 2
kind_number Kind.discovery = 3
kind_number Kind.metrics = 4
kind_number Kind.observe = 5

-- The predicate of idx_jobs_one_active_per_instance_kind.
unfoldable pub is_active : JobState → Bool
is_active JobState.pending = true
is_active JobState.running = true
is_active _ = false

-- Two rows that the index would hold under one key.
abbrev pub collides : Job → Job → Bool
collides j k =
    is_active j.state
    && is_active k.state
    && j.instance_id == k.instance_id
    && kind_number j.kind == kind_number k.kind

-- INSERT INTO jobs. `none` is a unique violation, of the index or of the primary key.
unfoldable pub insert_job : Job → List Job → Option (List Job)
insert_job j jobs =
    if is_some (row (λ k. k.id) j.id jobs) || exists (collides j) jobs
    then none
    else some (j ∷ jobs)

-- The row that `materialize` and `enqueueVerify` insert: pending, due now, never started.
abbrev pub queued_job : ℕ → ℕ → Option ℕ → ℕ → Kind → String → ℕ → Job
queued_job id tenant schedule instance_id kind payload now = record {
  id = id;
  tenant_id = tenant;
  schedule_id = schedule;
  instance_id = instance_id;
  kind = kind;
  state = JobState.pending;
  payload = payload;
  scheduled_for = now;
  lease_owner = none;
  lease_expires_at = none;
  heartbeat_at = none;
  attempts = 0;
  started_at = none;
  finished_at = none;
  error_message = "";
  updated_at = now;
}

-- The row that `createRows` and `createVerificationRows` insert for a run that a person asked for:
-- already running, its one start counted, and no lease on it.
abbrev pub started_job : ℕ → ℕ → ℕ → Kind → ℕ → Job
started_job id tenant instance_id kind now = record {
  id = id;
  tenant_id = tenant;
  schedule_id = none;
  instance_id = instance_id;
  kind = kind;
  state = JobState.running;
  payload = "{}";
  scheduled_for = now;
  lease_owner = none;
  lease_expires_at = none;
  heartbeat_at = none;
  attempts = 1;
  started_at = some now;
  finished_at = none;
  error_message = "";
  updated_at = now;
}

abbrev pub is_of_tenant : ℕ → ℕ → Job → Bool
is_of_tenant id tenant j = j.id == id && j.tenant_id == tenant

-- The last statement of `recordSuccess`.
abbrev pub mark_succeeded : ℕ → Job → Job
mark_succeeded now j = record j {
  state = JobState.succeeded;
  finished_at = some now;
  updated_at = now;
}

unfoldable pub record_success : ℕ → ℕ → ℕ → List Job → List Job
record_success id tenant now jobs = update (is_of_tenant id tenant) (mark_succeeded now) jobs

-- The last statement of `recordFailure`, and of `recordVerification`, whose state is `succeeded`
-- or `failed`.
abbrev pub mark_ended : JobState → String → ℕ → Job → Job
mark_ended state message now j = record j {
  state = state;
  error_message = message;
  finished_at = some now;
  updated_at = now;
}

unfoldable pub record_end : ℕ → ℕ → JobState → String → ℕ → List Job → List Job
record_end id tenant state message now jobs =
    update (is_of_tenant id tenant) (mark_ended state message now) jobs

-- What ends a run: the callers pass no other state.
pub data Ending : Type 0 where
  success failure : Ending

abbrev pub ending_state : Ending → JobState
ending_state success = JobState.succeeded
ending_state failure = JobState.failed

-- One statement by one process. A history of the table is a list of these, in the order in which
-- the database carried them out.
pub data Event : Type 0 where
  queues : (id tenant : ℕ) → Option ℕ → (instance_id : ℕ) → Kind → String → (now : ℕ) → Event
  starts : (id tenant instance_id : ℕ) → Kind → (now : ℕ) → Event
  claims : (owner : ℕ) → Duration → (now : ℕ) → (ℕ → Bool) → Event
  renews : (id owner : ℕ) → Duration → (now : ℕ) → Event
  releases : (id owner now : ℕ) → Event
  finishes : (id owner : ℕ) → Ending → String → (now : ℕ) → Event
  reaps : (now : ℕ) → Event
  succeeds : (id tenant now : ℕ) → Event
  ends : (id tenant : ℕ) → Ending → String → (now : ℕ) → Event

abbrev pub or_unchanged : List Job → Option (List Job) → List Job
or_unchanged jobs none = jobs
or_unchanged jobs (some after) = after

unfoldable pub step : List Job → Event → List Job
step jobs (queues id tenant schedule instance_id kind payload now) =
    or_unchanged jobs (insert_job (queued_job id tenant schedule instance_id kind payload now) jobs)
step jobs (starts id tenant instance_id kind now) =
    or_unchanged jobs (insert_job (started_job id tenant instance_id kind now) jobs)
step jobs (claims owner ttl now locked) = (claim owner ttl now locked jobs).0
step jobs (renews id owner ttl now) = (renew id owner ttl now jobs).0
step jobs (releases id owner now) = release id owner now jobs
step jobs (finishes id owner ending message now) =
    finish id owner (ending_state ending) message now jobs
step jobs (reaps now) = reap_jobs now jobs
step jobs (succeeds id tenant now) = record_success id tenant now jobs
step jobs (ends id tenant ending message now) =
    record_end id tenant (ending_state ending) message now jobs

unfoldable pub run : List Job → List Event → List Job
run jobs [] = jobs
run jobs (e ∷ es) = run (step jobs e) es

-- Whether a claim handed out this job.
abbrev pub hands_out : ℕ → Option ClaimedJob → ℕ
hands_out id none = 0
hands_out id (some c) = if c.id == id then 1 else 0

unfoldable pub starts_of : ℕ → List Job → Event → ℕ
starts_of id jobs (claims owner ttl now locked) = hands_out id (claim owner ttl now locked jobs).1
starts_of id jobs _ = 0

-- How often the job was handed out over a history.
unfoldable pub handed_out : ℕ → List Job → List Event → ℕ
handed_out id jobs [] = 0
handed_out id jobs (e ∷ es) = starts_of id jobs e + handed_out id (step jobs e) es
