-- ===== src/Scheduler/Schedules/Examples.antt =====
-- The theorems on schedules, each applied to a small table.
use fleetward.Base.{◌≡◌, refl, true, [], ◌∷◌, none, some, ◌==◌, pos}
use fleetward.Scheduler.Rows.{Kind}
use fleetward.Scheduler.Cron.{next_run, parse_cron, location_of}
use fleetward.Scheduler.Cron.Every.{every}
use fleetward.Scheduler.Schedules.{
  Schedule, CreateScheduleInput, accept, schedule_kind, verify_policy_of, sample_percent_of,
  retention_of, validate_expectation, create_schedule,
}
use fleetward.Scheduler.Schedules.Validity.{IsValid, create_schedule-IsValid}

abbrev nightly : CreateScheduleInput
nightly = record {
  instance_id = 7;
  kind = "";
  cron_expression = "every 10";
  timezone = "";
  method_id = "logical";
  options = [];
  verify_policy = "sampled";
  verify_sample_percent = pos 25;
  retention_days = pos 0;
  expected_cron = "every 10";
  expected_grace_minutes = pos 0;
}

abbrev stored : Schedule
stored = record {
  id = 1;
  tenant_id = 5;
  instance_id = 7;
  kind = Kind.backup;
  cron_expression = "every 10";
  timezone = "UTC";
  method_id = "logical";
  options = [];
  verify_policy = "sampled";
  verify_sample_percent = pos 25;
  retention_days = pos 30;
  is_enabled = true;
  next_run_at = some 1010;
  last_run_at = none;
  expected_cron = "every 10";
  expected_grace_minutes = pos 120;
  updated_at = 1000;
}

nightly_accepted : create_schedule every 1 5 1000 (λ i. i == 7) nightly [] ≡ accept (stored ∷ [])
unfolding create_schedule schedule_kind next_run parse_cron location_of verify_policy_of
    sample_percent_of retention_of validate_expectation
nightly_accepted = refl

create_schedule-IsValid_example :
    (s : Schedule) × (stored ∷ [] ≡ s ∷ [])
    × (s.id ≡ 1)
    × (s.tenant_id ≡ 5)
    × ((s.instance_id == 7) ≡ true)
    × IsValid every 1000 s
create_schedule-IsValid_example =
    create_schedule-IsValid every 1 5 1000 (λ i. i == 7) nightly [] nightly_accepted
