-- ===== src/Scheduler/Runner/Examples.antt =====
-- The theorems on a run, each applied to a job under a lease.
use fleetward.Base.{
  ℕ, ◌≢◌, ◌≡◌, refl, true, false, [], ◌∷◌, none, some, if◌then◌else◌, pos, holds, update, row,
}
use fleetward.Scheduler.Rows.{Kind, JobState, Job}
use fleetward.Scheduler.Lease.{claimed, take_lease, close_job}
use fleetward.Scheduler.Jobs.{queued_job, mark_succeeded, record_success}
use fleetward.Scheduler.Examples.{tick, leased, one_leased}
use fleetward.Scheduler.Runner.{
  JobPayload, empty_payload, decode_payload, ok, err, Runner, Json, World, should_verify, dispatch,
  run_job,
}
use fleetward.Scheduler.Runner.Settled.{settled}
use fleetward.Scheduler.Runner.Outcome.{run_settles, queueing_failure_overwrites_success}

-- A service that records its success, and engines that do nothing.
abbrev idle_runner : Runner
idle_runner = record {
  run_backup_job = λ in_ jobs. (record_success in_.job_id 5 1010 jobs, ok "b1");
  run_verification_job = λ in_ jobs. (jobs, ok tt);
  run_observation_job = λ in_ jobs. (jobs, ok tt);
  run_discovery_job = λ in_ jobs. (jobs, err "unreachable");
}

abbrev always : JobPayload
always = record empty_payload {
  method_id = "logical";
  verify_policy = "always";
  retention_days = pos 7;
}

-- A codec that reads every payload as the same one.
abbrev one_payload : Json
one_payload = record { encode = λ p. "v"; decode = λ raw. ok always }

-- The database refuses the insert of the verification.
abbrev refusing : World
refusing = record { now = 1020; draw = 40; new_id = 9; insert_error = some "connection reset" }

abbrev probe_job : Job
probe_job = take_lease 60 (pos 120) tick (queued_job 4 5 none 7 Kind.discovery "d" 900)

abbrev probe_row : row (λ j. j.id) 4 (probe_job ∷ []) ≡ some probe_job
unfolding row
probe_row = refl

run_settles_example :
    let work =
      dispatch one_payload refusing idle_runner Kind.discovery
        (claimed probe_job)
        always
        (probe_job ∷ []) in
    (row
        (λ j. j.id)
        4
        (run_job one_payload refusing idle_runner 60 false (claimed probe_job) (probe_job ∷ []))
      ≡ some (
          if holds probe_job.lease_owner 60
          then settled 1020 Kind.discovery work.1 probe_job
          else probe_job))
    × ((other : ℕ)
        → other ≢ 4
        → row
            (λ j. j.id)
            other
            (run_job one_payload refusing idle_runner 60 false (claimed probe_job) (probe_job ∷ []))
          ≡ row (λ j. j.id) other work.0)
    × (run_job one_payload refusing idle_runner 60 true (claimed probe_job) (probe_job ∷ [])
        ≡ work.0)
run_settles_example =
    run_settles one_payload refusing idle_runner 60 (claimed probe_job) (probe_job ∷ []) always
      probe_job (unfold decode_payload in refl) (unfold dispatch in probe_row)

queueing_failure_overwrites_success_example :
    row
      (λ j. j.id)
      1
      (run_job one_payload refusing idle_runner 60 false (claimed leased) one_leased)
    ≡ some (close_job JobState.failed "connection reset" 1020 (mark_succeeded 1010 leased))
queueing_failure_overwrites_success_example =
    queueing_failure_overwrites_success one_payload refusing idle_runner 60 (claimed leased)
      one_leased always "b1" "connection reset" leased 1010 (unfold decode_payload in refl) refl
      (unfold should_verify in refl) refl refl (unfold record_success update row in refl) refl

abbrev sampled_payload : JobPayload
sampled_payload = record always { verify_policy = "sampled"; verify_sample_percent = pos 25 }
