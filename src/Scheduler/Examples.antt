-- ===== src/Scheduler/Examples.antt =====
-- The theorems on leases, the reaper and the job table, each applied to a small table, and tests of its operations.
use mathlib.Core.Option
use fleetward.Base.{
  ℕ, ◌+◌, ◌≤◌, ◌≡◌, refl, Bool, false, List, [], ◌∷◌, Option, none, some, arith, pos, update, row,
  IsKeyed,
}
use fleetward.Scheduler.Rows.{Kind, JobState, Job, BackupState, VerificationState}
use fleetward.Scheduler.Lease.{ClaimedJob, take_lease, claim, close_job, finish}
use fleetward.Scheduler.Lease.Claim.{Claims, claim-Claims}
use fleetward.Scheduler.Reaper.{Db, reap_message, reap_jobs, reap}
use fleetward.Scheduler.Reaper.Exact.{
  IsLapsed, IsLostBackup, IsLostVerification, failed_job, failed_backup, inconclusive_verification,
  Closes, LapsedCount, reap_exact,
}
use fleetward.Scheduler.Jobs.{
  insert_job, queued_job, started_job, mark_succeeded, record_success, Event, queues, claims,
  finishes, reaps, success, starts_of, step, run, handed_out, kind_number, is_active,
}
use fleetward.Scheduler.Jobs.Trace.{Sound, run-Sound}
use fleetward.Scheduler.Jobs.Once.{attempts_of, handed_out_once}
use fleetward.Scheduler.Jobs.Orphan.{unleased_job_stays}
use fleetward.Scheduler.Jobs.Ghost.{ghost_success_overwrites_reap}

-- The clock in these examples stands at 1000, and a lease lasts 120.
abbrev pub tick : ℕ
tick = 1000

abbrev nobody_locks : ℕ → Bool
nobody_locks id = false

-- Two backups wait, of instances 7 and 8; the second was due first.
abbrev waiting : List Job
waiting = queued_job 1 5 none 7 Kind.backup "a" 900 ∷ queued_job 2 5 none 8 Kind.backup "b" 800 ∷ []

abbrev first_claim : List Job × Option ClaimedJob
first_claim = claim 60 (pos 120) tick nobody_locks waiting

claim_takes_first_due : Option.map (λ c. c.id) first_claim.1 ≡ some 2
unfolding claim
claim_takes_first_due = refl

claim-Claims_example : Claims 60 (pos 120) tick nobody_locks waiting first_claim
claim-Claims_example =
    claim-Claims 60 (pos 120) tick nobody_locks waiting (unfold row in (refl, (refl, tt)))

-- A job under the lease of process 60 until 1120.
abbrev pub leased : Job
leased = take_lease 60 (pos 120) tick (queued_job 1 5 none 7 Kind.backup "a" 900)

abbrev pub one_leased : List Job
one_leased = leased ∷ []

one_leased-IsKeyed : IsKeyed (λ j. j.id) one_leased
unfolding row
one_leased-IsKeyed = (refl, tt)

one_leased-row : row (λ j. j.id) 1 one_leased ≡ some leased
unfolding row
one_leased-row = refl

-- The process is gone; its job has a backup and a verification under way.
abbrev orphans : Db
orphans = record {
  jobs = one_leased;
  backups =
      record {
        id = 1;
        job_id = some 1;
        state = BackupState.running;
        error_message = "";
        completed_at = none;
        updated_at = tick;
      }
      ∷ [];
  verifications =
      record {
        id = 1;
        job_id = some 1;
        status = VerificationState.pending;
        error_message = "";
        completed_at = none;
        updated_at = tick;
      }
      ∷ [];
}

reap_counts_one : (reap 2000 orphans).1 ≡ 1
unfolding reap update
reap_counts_one = refl

reap_exact_example :
    let after = (reap 2000 orphans).0 in
    LapsedCount 2000 orphans.jobs (reap 2000 orphans).1
    × Closes
        (IsLapsed 2000)
        (failed_job 2000)
        (row (λ j. j.id) 1 orphans.jobs)
        (row (λ j. j.id) 1 after.jobs)
    × Closes
        (IsLostBackup 2000 orphans.jobs)
        (failed_backup 2000)
        (row (λ b. b.id) 1 orphans.backups)
        (row (λ b. b.id) 1 after.backups)
    × Closes
        (IsLostVerification 2000 orphans.jobs)
        (inconclusive_verification 2000)
        (row (λ v. v.id) 1 orphans.verifications)
        (row (λ v. v.id) 1 after.verifications)
reap_exact_example = reap_exact 2000 1 orphans

waiting-Sound : Sound waiting
unfolding row kind_number is_active
waiting-Sound = record {
  keyed = (refl, (refl, tt));
  one_active = (refl, (refl, tt));
  rows = (ground arith, (ground arith, tt));
}

-- Two processes claim, one of them is reaped while it works, and a third run is queued.
abbrev history : List Event
history =
    claims 60 (pos 120) tick nobody_locks
    ∷ claims 61 (pos 120) 1001 nobody_locks
    ∷ reaps 1121
    ∷ finishes 2 60 success "" 1122
    ∷ queues 3 5 none 8 Kind.backup "c" 1123
    ∷ claims 60 (pos 120) 1124 nobody_locks
    ∷ []

run-Sound_example : Sound (run waiting history)
run-Sound_example = run-Sound waiting history waiting-Sound

handed_out_once_example : handed_out 2 waiting history + attempts_of (row (λ j. j.id) 2 waiting) ≤ 1
handed_out_once_example = handed_out_once 2 waiting history waiting-Sound

handed_out_once_attained : handed_out 2 waiting history ≡ 1
unfolding handed_out starts_of claim step update insert_job row finish is_active
handed_out_once_attained = refl

ghost_success_overwrites_reap_example :
    row (λ j. j.id) 1 (record_success 1 5 2001 (reap_jobs 2000 one_leased))
    ≡ some (mark_succeeded 2001 (close_job JobState.failed reap_message 2000 leased))
ghost_success_overwrites_reap_example =
    ghost_success_overwrites_reap 2000 2001 1 one_leased leased one_leased-row refl

-- The backup of instance 7 that a person asked for; its process, 60, was killed.
abbrev stranded : Job
stranded = started_job 1 5 7 Kind.backup 900

one_stranded-Sound : Sound (stranded ∷ [])
unfolding row kind_number is_active
one_stranded-Sound = record {
  keyed = (refl, tt);
  one_active = (refl, tt);
  rows = (record { fresh = λ h. absurd (cc); unleased = λ h. refl; once = ground arith }, tt);
}

unleased_job_stays_example :
    let jobs = run (stranded ∷ []) (reaps 90000 ∷ claims 61 (pos 120) 90001 nobody_locks ∷ []) in
    (row (λ i. i.id) 1 jobs ≡ some stranded)
    × (insert_job (queued_job 2 5 none 7 Kind.backup "c" 90002) jobs ≡ none)
unleased_job_stays_example =
    unleased_job_stays 1 stranded (stranded ∷ [])
      (reaps 90000 ∷ claims 61 (pos 120) 90001 nobody_locks ∷ [])
      (queued_job 2 5 none 7 Kind.backup "c" 90002) (refl, refl, refl) one_stranded-Sound
      (unfold row in refl) (refl, (refl, tt)) (unfold is_active kind_number in refl)
