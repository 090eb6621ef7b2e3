-- ===== src/Scheduler/Schedules.antt =====
-- internal/controlplane/scheduler/service.go: the operations on `schedules`. An id that the caller
-- misspells is refused before, by requireUUID.
pub mod Validity
mod Examples
use text.Mathlib.Text.{◌==◌ as str_eq}
use fleetward.Base.{
  ℕ, zero, suc, ◌+◌, ◌-◌, ◌*◌, ◌≤◌, ◌<◌, ◌≡◌, refl, sym, ap, subst, ◌∙◌, ◌≢◌, ◌↔◌, ◌⊎◌, inl, inr,
  Bool, true, false, not, ◌&&◌, ◌||◌, List, [], ◌∷◌, ◌++◌, map, Option, none, some, String, arith,
  ltb, leb, ◌==◌, if◌then◌else◌, eq→==, ==→eq, ne→==, ltb→lt, Bool-cases, Option-cases, ℤ, pos,
  negsuc, pos_part, neg_part, is_positive, holds, is_some, length, All, All-map, All-update,
  All-true, exists, where_rows, update, affected, update-All, update-none, row, row-update,
  row-none, row-keyed, row-key, row-update-some, row-update-none, row-update_ne, IsKeyed,
  IsKeyed-update,
}
use fleetward.Scheduler.Rows.{Kind}
use fleetward.Scheduler.Cron.{Cron, CronError, Checked, ok, err, next_run}

pub record Schedule : Type 0 where
  pub id : ℕ
  pub tenant_id : ℕ
  pub instance_id : ℕ
  pub kind : Kind
  pub cron_expression : String
  pub timezone : String
  pub method_id : String
  pub options : List (String × String)
  pub verify_policy : String
  pub verify_sample_percent : ℤ
  pub retention_days : ℤ
  pub is_enabled : Bool
  pub next_run_at : Option ℕ
  pub last_run_at : Option ℕ
  pub expected_cron : String
  pub expected_grace_minutes : ℤ
  pub updated_at : ℕ

pub record CreateScheduleInput : Type 0 where
  pub instance_id : ℕ
  pub kind : String
  pub cron_expression : String
  pub timezone : String
  pub method_id : String
  pub options : List (String × String)
  pub verify_policy : String
  pub verify_sample_percent : ℤ
  pub retention_days : ℤ
  pub expected_cron : String
  pub expected_grace_minutes : ℤ

-- Why the service refuses, by the sentinel and the check that raised it.
pub data Refusal : Type 0 where
  unsupported_kind : String → Refusal
  bad_schedule : CronError → Refusal
  bad_policy bad_percent bad_retention grace_without_cron negative_grace : Refusal
  bad_expectation : CronError → Refusal
  instance_not_found schedule_not_found : ℕ → Refusal

pub data Outcome {ℓ} (A : Type ℓ) : Type ℓ where
  accept : A → Outcome A
  refuse : Refusal → Outcome A

infixl 5 ◌>>=◌
abbrev pub ◌>>=◌ {ℓ κ} : {A : Type ℓ} {B : Type κ} → Outcome A → (A → Outcome B) → Outcome B
accept a >>= f = f a
refuse e >>= f = refuse e

abbrev pub checked {ℓ} : {A : Type ℓ} → (CronError → Refusal) → Checked A → Outcome A
checked why (ok a) = accept a
checked why (err e) = refuse (why e)

abbrev pub default_to : String → String → String
default_to s d = if str_eq s "" then d else s

-- The kinds that run today. The column holds no other string that the service writes.
unfoldable pub schedule_kind : String → Outcome Kind
schedule_kind kind =
    if str_eq kind "" || str_eq kind "backup"
    then accept Kind.backup
    else if str_eq kind "observe"
    then accept Kind.observe
    else if str_eq kind "discovery"
    then accept Kind.discovery
    else refuse (unsupported_kind kind)

unfoldable pub verify_policy_of : String → Outcome String
verify_policy_of policy =
    if str_eq policy "" || str_eq policy "always"
    then accept "always"
    else if str_eq policy "sampled" || str_eq policy "manual"
    then accept policy
    else refuse bad_policy

-- A percentage that does not apply is stored as 100.
abbrev pub percent_in_range : ℤ → Bool
percent_in_range (pos n) = leb n 100
percent_in_range (negsuc n) = false

unfoldable pub sample_percent_of : String → ℤ → Outcome ℤ
sample_percent_of policy pct =
    if str_eq policy "sampled"
    then (if percent_in_range pct then accept pct else refuse bad_percent)
    else accept (pos 100)

-- An absent retention is 30 days.
unfoldable pub retention_of : ℤ → Outcome ℤ
retention_of (pos zero) = accept (pos 30)
retention_of (pos (suc n)) = accept (pos (suc n))
retention_of (negsuc n) = refuse bad_retention

abbrev pub is_zero : ℤ → Bool
is_zero (pos zero) = true
is_zero _ = false

abbrev pub is_negative : ℤ → Bool
is_negative (pos n) = false
is_negative (negsuc n) = true

abbrev pub grace_or_default : ℤ → ℤ
grace_or_default grace = if is_zero grace then pos 120 else grace

module _ (cron : Cron) where
  unfoldable pub validate_expectation : String → ℤ → String → ℕ → Outcome (String × ℤ)
  validate_expectation expr grace timezone now =
      if str_eq expr ""
      then (if is_zero grace then accept ("", pos 0) else refuse grace_without_cron)
      else if is_negative grace
      then refuse negative_grace
      else checked bad_expectation (next_run cron expr timezone now) >>= λ _.
          accept (expr, grace_or_default grace)

  -- `CreateSchedule`: the checks in the order of the code, then the insert, whose foreign key is
  -- `exists_instance`.
  unfoldable pub create_schedule :
      ℕ → ℕ → ℕ → (ℕ → Bool) → CreateScheduleInput → List Schedule → Outcome (List Schedule)
  create_schedule id tenant now exists_instance in_ rows = do
    kind ← schedule_kind in_.kind
    let timezone = default_to in_.timezone "UTC"
    next ← checked bad_schedule (next_run cron in_.cron_expression timezone now)
    policy ← verify_policy_of in_.verify_policy
    pct ← sample_percent_of policy in_.verify_sample_percent
    retention ← retention_of in_.retention_days
    expectation ← validate_expectation in_.expected_cron in_.expected_grace_minutes timezone now
    if exists_instance in_.instance_id
        then accept (
            record {
              id = id;
              tenant_id = tenant;
              instance_id = in_.instance_id;
              kind = kind;
              cron_expression = in_.cron_expression;
              timezone = timezone;
              method_id = in_.method_id;
              options = in_.options;
              verify_policy = policy;
              verify_sample_percent = pct;
              retention_days = retention;
              is_enabled = true;
              next_run_at = some next;
              last_run_at = none;
              expected_cron = expectation.0;
              expected_grace_minutes = expectation.1;
              updated_at = now;
            }
            ∷ rows)
        else refuse (instance_not_found in_.instance_id)

  abbrev pub is_schedule_of : ℕ → ℕ → Schedule → Bool
  is_schedule_of id tenant s = s.id == id && s.tenant_id == tenant

  abbrev pub owned_by : ℕ → ℕ → Option Schedule → Outcome Schedule
  owned_by id tenant none = refuse (schedule_not_found id)
  owned_by id tenant (some s) =
      if s.tenant_id == tenant then accept s else refuse (schedule_not_found id)

  unfoldable pub get_schedule : ℕ → ℕ → List Schedule → Outcome Schedule
  get_schedule id tenant rows = owned_by id tenant (row (λ s. s.id) id rows)

  -- Resuming computes the next run from now. A paused schedule has none.
  abbrev pub resume_at : Bool → Schedule → ℕ → Outcome (Option ℕ)
  resume_at true s now =
      checked bad_schedule (next_run cron s.cron_expression s.timezone now) >>= λ n. accept (some n)
  resume_at false s now = accept none

  abbrev pub set_enabled : Bool → Option ℕ → ℕ → Schedule → Schedule
  set_enabled enabled next now s = record s {
    is_enabled = enabled;
    next_run_at = next;
    updated_at = now;
  }

  unfoldable pub set_schedule_enabled : ℕ → ℕ → Bool → ℕ → List Schedule → Outcome (List Schedule)
  set_schedule_enabled id tenant enabled now rows = do
    current ← get_schedule id tenant rows
    next ← resume_at enabled current now
    if affected (is_schedule_of current.id tenant) rows == 0
        then refuse (schedule_not_found current.id)
        else accept (update (is_schedule_of current.id tenant) (set_enabled enabled next now) rows)

  -- What the schedule created keeps its history: the key in `jobs` is set to NULL by the database.
  unfoldable pub delete_schedule : ℕ → ℕ → List Schedule → Outcome (List Schedule)
  delete_schedule id tenant rows =
      if affected (is_schedule_of id tenant) rows == 0
      then refuse (schedule_not_found id)
      else accept (where_rows (λ s. not (is_schedule_of id tenant s)) rows)
