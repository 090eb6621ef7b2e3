-- ===== src/Scheduler/Jobs/Ghost.antt =====
-- What the lease does not keep out: the backup service's own statements name no lease.

use fleetward.Base.{ℕ, ◌≡◌, refl, ◌∙◌, true, List, some, eq→==, row, row-key, row-update-some}
use fleetward.Scheduler.Rows.{JobState, Job}
use fleetward.Scheduler.Lease.{close_job}
use fleetward.Scheduler.Reaper.{is_abandoned, reap_message, reap_jobs}
use fleetward.Scheduler.Jobs.{is_of_tenant, mark_succeeded, record_success}

-- A job that a reap has failed reads as succeeded once the service behind its former runner
-- records success: the statement asks for no lease and for no state. The error message that the
-- reap wrote stays.
pub ghost_success_overwrites_reap :
    (now later id : ℕ) (jobs : List Job) (n : Job)
    → row (λ j. j.id) id jobs ≡ some n
    → is_abandoned now n ≡ true
    → row (λ j. j.id) id (record_success id n.tenant_id later (reap_jobs now jobs))
      ≡ some (mark_succeeded later (close_job JobState.failed reap_message now n))
unfolding record_success
ghost_success_overwrites_reap now later id jobs n here gone =
    let reaped : row (λ j. j.id) id (reap_jobs now jobs)
        ≡ some (close_job JobState.failed reap_message now n) =
      row-update-some (λ j. j.id) (is_abandoned now) (close_job JobState.failed reap_message now)
        (λ j. refl) id jobs here
      ∙ rw gone in
    row-update-some (λ j. j.id) (is_of_tenant id n.tenant_id) (mark_succeeded later) (λ j. refl) id
      (reap_jobs now jobs) reaped
    ∙ rw (eq→== n.id id (row-key (λ j. j.id) id jobs here), eq→== n.tenant_id n.tenant_id refl)
