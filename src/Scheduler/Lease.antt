-- ===== src/Scheduler/Lease.antt =====
-- internal/controlplane/scheduler/lease.go: claiming a job, and keeping, dropping or losing the
-- lease on it. Each function is one SQL statement at the instant `now`.
pub mod Claim
pub mod Fencing
use fleetward.Base.{
  ℕ, zero, suc, ◌+◌, ◌-◌, ◌*◌, ◌≤◌, ◌<◌, ◌≡◌, refl, sym, ap, subst, ◌∙◌, ◌≢◌, ◌↔◌, ◌⊎◌, inl, inr,
  Bool, true, false, not, ◌&&◌, ◌||◌, List, [], ◌∷◌, ◌++◌, map, Option, none, some, String, arith,
  ltb, leb, ◌==◌, if◌then◌else◌, eq→==, ==→eq, ne→==, ltb→lt, Bool-cases, Option-cases, ℤ, pos,
  negsuc, pos_part, neg_part, is_positive, holds, is_some, length, All, All-map, All-update,
  All-true, exists, where_rows, update, affected, update-All, update-none, row, row-update,
  row-none, row-keyed, row-key, row-update-some, row-update-none, row-update_ne, IsKeyed,
  IsKeyed-update,
}
use fleetward.Scheduler.Rows.{Kind, JobState, is_pending, is_running, Job}

-- A Go duration, in microseconds: PostgreSQL keeps no finer instant.
abbrev pub Duration : Type 0
Duration = ℤ

-- A duration that is not positive is no time at all.
abbrev pub interval : Duration → ℕ
interval (pos n) = n
interval (negsuc n) = 0

abbrev pub coalesce : Option ℕ → ℕ → ℕ
coalesce none d = d
coalesce (some a) d = a

-- What `claim` hands the runner: the columns that its statement returns.
pub record ClaimedJob : Type 0 where
  pub id : ℕ
  pub tenant_id : ℕ
  pub instance_id : ℕ
  pub schedule_id : Option ℕ
  pub kind : Kind
  pub payload : String
  pub attempts : ℕ

abbrev pub claimed : Job → ClaimedJob
claimed j = record {
  id = j.id;
  tenant_id = j.tenant_id;
  instance_id = j.instance_id;
  schedule_id = j.schedule_id;
  kind = j.kind;
  payload = j.payload;
  attempts = j.attempts;
}

-- The WHERE clause of the subselect. `locked` says which rows another transaction holds, which
-- SKIP LOCKED passes over.
abbrev pub is_claimable : ℕ → (ℕ → Bool) → Job → Bool
is_claimable now locked j = is_pending j.state && leb j.scheduled_for now && not (locked j.id)

abbrev pub earlier : Job → Option Job → Option Job
earlier j none = some j
earlier j (some k) = if leb j.scheduled_for k.scheduled_for then some j else some k

-- ORDER BY scheduled_for LIMIT 1.
unfoldable pub next_due : ℕ → (ℕ → Bool) → List Job → Option Job
next_due now locked [] = none
next_due now locked (j ∷ js) =
    let rest = next_due now locked js in if is_claimable now locked j then earlier j rest else rest

-- The SET clause of the claim.
abbrev pub take_lease : ℕ → Duration → ℕ → Job → Job
take_lease owner ttl now j = record j {
  state = JobState.running;
  lease_owner = some owner;
  lease_expires_at = some (now + interval ttl);
  heartbeat_at = some now;
  attempts = j.attempts + 1;
  started_at = some (coalesce j.started_at now);
  updated_at = now;
}

unfoldable pub claim_row : ℕ → Duration → ℕ → Option Job → List Job → List Job × Option ClaimedJob
claim_row owner ttl now none jobs = (jobs, none)
claim_row owner ttl now (some j) jobs = (
  update (λ k. k.id == j.id) (take_lease owner ttl now) jobs,
  some (claimed (take_lease owner ttl now j)),
)

unfoldable pub claim : ℕ → Duration → ℕ → (ℕ → Bool) → List Job → List Job × Option ClaimedJob
unfolding claim_row next_due
claim owner ttl now locked jobs = claim_row owner ttl now (next_due now locked jobs) jobs

-- `lease_owner = $2 AND id = $1`.
abbrev pub is_held : ℕ → ℕ → Job → Bool
is_held id owner j = j.id == id && holds j.lease_owner owner

pub data Renewal : Type 0 where
  renewed lease_lost : Renewal

abbrev pub extend_lease : Duration → ℕ → Job → Job
extend_lease ttl now j = record j {
  lease_expires_at = some (now + interval ttl);
  heartbeat_at = some now;
  updated_at = now;
}

abbrev pub is_renewable : ℕ → ℕ → Job → Bool
is_renewable id owner j = is_held id owner j && is_running j.state

unfoldable pub renew : ℕ → ℕ → Duration → ℕ → List Job → List Job × Renewal
renew id owner ttl now jobs = (
  update (is_renewable id owner) (extend_lease ttl now) jobs,
  (if affected (is_renewable id owner) jobs == 0 then lease_lost else renewed),
)

abbrev pub drop_lease : ℕ → Job → Job
drop_lease now j = record j { lease_owner = none; lease_expires_at = none; updated_at = now }

unfoldable pub release : ℕ → ℕ → ℕ → List Job → List Job
release id owner now jobs = update (is_held id owner) (drop_lease now) jobs

abbrev pub close_job : JobState → String → ℕ → Job → Job
close_job state message now j = record j {
  state = state;
  error_message = message;
  finished_at = some now;
  lease_owner = none;
  lease_expires_at = none;
  updated_at = now;
}

unfoldable pub finish : ℕ → ℕ → JobState → String → ℕ → List Job → List Job
finish id owner state message now jobs =
    update (is_held id owner) (close_job state message now) jobs
