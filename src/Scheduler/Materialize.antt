-- ===== src/Scheduler/Materialize.antt =====
-- internal/controlplane/scheduler/runner.go, `materialize`: due schedules become jobs.
pub mod Created
pub mod Ticks
pub mod Never
pub mod Paused
mod Examples
use fleetward.Base.{
  ℕ, zero, suc, ◌+◌, ◌-◌, ◌*◌, ◌≤◌, ◌<◌, ◌≡◌, refl, sym, ap, subst, ◌∙◌, ◌≢◌, ◌↔◌, ◌⊎◌, inl, inr,
  Bool, true, false, not, ◌&&◌, ◌||◌, List, [], ◌∷◌, ◌++◌, map, Option, none, some, String, arith,
  ltb, leb, ◌==◌, if◌then◌else◌, eq→==, ==→eq, ne→==, ltb→lt, Bool-cases, Option-cases, ℤ, pos,
  negsuc, pos_part, neg_part, is_positive, holds, is_some, length, All, All-map, All-update,
  All-append, length-append, All-true, exists, where_rows, update, affected, update-All,
  update-none, row, row-update, row-none, row-keyed, row-key, row-update-some, row-update-none,
  row-update_ne, affected-row, affected-row-none, IsKeyed, IsKeyed-update, take, sort_on,
  All-sort_on, All-take, All-where_rows,
}
use fleetward.Scheduler.Rows.{Kind, Job}
use fleetward.Scheduler.Jobs.{insert_job, queued_job}
use fleetward.Scheduler.Cron.{Cron, Checked, ok, err, next_run}
use fleetward.Scheduler.Schedules.{Schedule}
use fleetward.Scheduler.Runner.{JobPayload, Json}

pub record Tables : Type 0 where
  pub schedules : List Schedule
  pub jobs : List Job

abbrev pub has_come : Option ℕ → ℕ → Bool
has_come none now = false
has_come (some t) now = leb t now

-- The WHERE clause of the query for due schedules.
abbrev pub is_due : ℕ → ℕ → Schedule → Bool
is_due tenant now s = s.tenant_id == tenant && s.is_enabled && has_come s.next_run_at now

-- A due schedule as this process read it, with the `next_run_at` of the row.
pub record Due : Type 0 where
  pub schedule : Schedule
  pub next_run_at : ℕ

abbrev pub due_of : Schedule → Option ℕ → List Due → List Due
due_of s none ds = ds
due_of s (some t) ds = record { schedule = s; next_run_at = t } ∷ ds

unfoldable pub read_due : List Schedule → List Due
read_due [] = []
read_due (s ∷ ss) = due_of s s.next_run_at (read_due ss)

-- ORDER BY next_run_at.
unfoldable pub due_schedules : ℕ → ℕ → List Schedule → List Due
unfolding read_due
due_schedules tenant now rows =
    sort_on (λ d. d.next_run_at) (read_due (where_rows (is_due tenant now) rows))

-- The compare-and-swap: `WHERE id = $1 AND next_run_at = $3`.
abbrev pub is_at : ℕ → ℕ → Schedule → Bool
is_at id old s = s.id == id && holds s.next_run_at old

abbrev pub advance_row : ℕ → ℕ → Schedule → Schedule
advance_row next now s = record s {
  next_run_at = some next;
  last_run_at = some now;
  updated_at = now;
}

unfoldable pub advance : ℕ → ℕ → ℕ → ℕ → List Schedule → List Schedule × ℕ
advance id next old now rows =
    (update (is_at id old) (advance_row next now) rows, affected (is_at id old) rows)

-- The snapshot of the schedule that the job carries.
abbrev pub snapshot : Schedule → JobPayload
snapshot s = record {
  method_id = s.method_id;
  options = s.options;
  verify_policy = s.verify_policy;
  verify_sample_percent = s.verify_sample_percent;
  retention_days = s.retention_days;
  backup_id = "";
}

-- A unique violation skips the run: the previous one is still active.
abbrev pub queue_row : Tables → Option (List Job) → Tables × ℕ
queue_row t none = (t, 0)
queue_row t (some jobs) = (record t { jobs = jobs }, 1)

module _ (cron : Cron) (json : Json) (tenant now : ℕ) (new_id : ℕ → ℕ) where
  -- `new_id` is the id that the database would give the job of a schedule.
  abbrev pub job_of : Schedule → Job
  job_of s =
      queued_job (new_id s.id) tenant (some s.id) s.instance_id s.kind (json.encode (snapshot s))
        now

  abbrev pub after_advance : Schedule → Tables → List Schedule × ℕ → Tables × ℕ
  after_advance s t (rows, n) =
      let t' = record t { schedules = rows } in
      if n == 0 then (t', 0) else queue_row t' (insert_job (job_of s) t.jobs)

  abbrev pub with_next : Due → Tables → Checked ℕ → Tables × ℕ
  with_next d t (err e) = (t, 0)
  with_next d t (ok next) =
      after_advance d.schedule t (advance d.schedule.id next d.next_run_at now t.schedules)

  -- The body of the loop, with the count of jobs it creates.
  unfoldable pub materialize_one : Due → Tables → Tables × ℕ
  materialize_one d t =
      with_next d t (next_run cron d.schedule.cron_expression d.schedule.timezone now)

  unfoldable pub materialize_all : List Due → Tables → Tables × ℕ
  unfolding materialize_one
  materialize_all [] t = (t, 0)
  materialize_all (d ∷ ds) t =
      let (t', n) = materialize_one d t in let (t'', m) = materialize_all ds t' in (t'', n + m)

  unfoldable pub materialize : Tables → Tables × ℕ
  unfolding materialize_all due_schedules
  materialize t = materialize_all (due_schedules tenant now t.schedules) t
