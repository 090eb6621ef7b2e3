-- ===== src/Scheduler/Materialize/Examples.antt =====
-- The theorems on due schedules, each applied to a small table.
use fleetward.Base.{
  ℕ, ◌≤◌, ◌≡◌, refl, true, false, List, [], ◌∷◌, none, some, String, arith, pos, update, affected,
  row, sort_on,
}
use fleetward.Scheduler.Rows.{Kind}
use fleetward.Scheduler.Cron.{next_run, parse_cron, location_of}
use fleetward.Scheduler.Jobs.{insert_job, is_active}
use fleetward.Scheduler.Cron.Every.{every}
use fleetward.Scheduler.Schedules.{Schedule, accept, get_schedule, set_schedule_enabled}
use fleetward.Scheduler.Runner.{err, Json}
use fleetward.Scheduler.Jobs.Trace.{Sound}
use fleetward.Scheduler.Materialize.{
  Tables, advance, is_due, due_schedules, materialize, materialize_one,
}
use fleetward.Scheduler.Materialize.Created.{Adds, materialize-Adds}
use fleetward.Scheduler.Materialize.Ticks.{Attempt, wins, tick_taken_once}
use fleetward.Scheduler.Materialize.Never.{never_firing_is_always_due}

abbrev plan : ℕ → String → ℕ → Schedule
plan id expr at = record {
  id = id;
  tenant_id = 5;
  instance_id = id;
  kind = Kind.backup;
  cron_expression = expr;
  timezone = "UTC";
  method_id = "logical";
  options = [];
  verify_policy = "always";
  verify_sample_percent = pos 100;
  retention_days = pos 30;
  is_enabled = true;
  next_run_at = some at;
  last_run_at = none;
  expected_cron = "";
  expected_grace_minutes = pos 0;
  updated_at = 0;
}

abbrev codec : Json
codec = record { encode = λ p. p.method_id; decode = λ raw. err "unread" }

abbrev tables : Tables
tables = record {
  schedules = plan 1 "every 10" 90 ∷ plan 2 "never" 80 ∷ plan 3 "every 10" 200 ∷ [];
  jobs = [];
}

abbrev tables_sound : Sound tables.jobs
tables_sound = record { keyed = tt; one_active = tt; rows = tt }

two_are_queued : (materialize every codec 5 100 (λ id. id) tables).1 ≡ 2
unfolding materialize next_run parse_cron location_of advance affected insert_job row update
    is_active sort_on
two_are_queued = refl

materialize-Adds_example :
    let after = materialize every codec 5 100 (λ id. id) tables in
    Adds every codec 5 100 (λ id. id) (due_schedules 5 100 tables.schedules) after.1 tables after.0
    × Sound after.0.jobs
materialize-Adds_example = materialize-Adds every codec 5 100 (λ id. id) tables tables_sound

-- Two replicas read the tick at 90.
abbrev racing : List Attempt
racing =
    record { id = 1; next = 110; old = 90; now = 100 }
    ∷ record { id = 1; next = 111; old = 90; now = 101 }
    ∷ []

tick_taken_once_example : wins 1 90 tables.schedules racing ≤ 1
tick_taken_once_example =
    tick_taken_once 1 90 tables.schedules racing (unfold row in (refl, (refl, (refl, tt))))
      (omega arith, (omega arith, tt))

tick_taken_once_attained : wins 1 90 tables.schedules racing ≡ 1
unfolding wins advance affected update
tick_taken_once_attained = refl

never_firing_is_always_due_example :
    let after =
      (materialize_one every codec 5 100
        (λ id. id)
        (record { schedule = plan 2 "never" 80; next_run_at = 80 })
        tables).0.schedules in
    (s : Schedule) × (row (λ s'. s'.id) 2 after ≡ some s) × (is_due 5 31000 s ≡ true)
never_firing_is_always_due_example =
    never_firing_is_always_due every codec 5 100 (λ id. id) tables (plan 2 "never" 80) 80 31000
      (unfold row in refl) refl refl (unfold next_run parse_cron location_of in refl)

abbrev paused : List Schedule
paused =
    record (plan 1 "every 10" 90) { is_enabled = false; next_run_at = none; updated_at = 100 }
    ∷ plan 2 "never" 80
    ∷ plan 3 "every 10" 200
    ∷ []

abbrev resumed : List Schedule
resumed =
    record (plan 1 "every 10" 90) { next_run_at = some 1010; updated_at = 1000 }
    ∷ plan 2 "never" 80
    ∷ plan 3 "every 10" 200
    ∷ []

pausing : set_schedule_enabled every 1 5 false 100 tables.schedules ≡ accept paused
unfolding set_schedule_enabled get_schedule row affected update
pausing = refl

resuming : set_schedule_enabled every 1 5 true 1000 paused ≡ accept resumed
unfolding set_schedule_enabled get_schedule row affected update next_run parse_cron location_of
resuming = refl
