-- ===== src/Scheduler/Jobs/Once.antt =====
-- A job is handed to a runner at most once, ever (ADR-0025).

use fleetward.Base.{
  ℕ, ◌+◌, ◌≤◌, ◌≡◌, refl, inl, inr, Bool, ◌||◌, List, [], ◌∷◌, Option, none, some, arith, ◌==◌,
  Bool-cases, is_some, All, exists, update, row,
}
use fleetward.Scheduler.Rows.{JobState, Job}
use fleetward.Scheduler.Lease.{
  Duration, ClaimedJob, claim, renew, release, finish, extend_lease, drop_lease, close_job, is_held,
  is_renewable,
}
use fleetward.Scheduler.Lease.Claim.{Claims, claim-Claims}
use fleetward.Scheduler.Reaper.{is_abandoned, reap_message}
use fleetward.Scheduler.Jobs.Trace.{IsSound, Sound, step-Sound, run-Sound}
use fleetward.Scheduler.Jobs.{
  collides, insert_job, queued_job, started_job, is_of_tenant, mark_succeeded, mark_ended,
  record_success, record_end, ending_state, Event, queues, starts, claims, renews, releases,
  finishes, reaps, succeeds, ends, or_unchanged, step, run, hands_out, starts_of, handed_out,
}

-- The starts of a job that the table counts.
abbrev pub attempts_of : Option Job → ℕ
attempts_of none = 0
attempts_of (some j) = j.attempts

row-IsSound :
    (id : ℕ) (jobs : List Job) → All IsSound jobs → attempts_of (row (λ j. j.id) id jobs) ≤ 1
unfolding row
row-IsSound id [] s = omega arith
row-IsSound id (j ∷ js) s = ground (arith, row-IsSound id js s.1)

insert-attempts :
    (id : ℕ) (j : Job) (jobs : List Job)
    → attempts_of (row (λ k. k.id) id jobs)
      ≤ attempts_of (row (λ k. k.id) id (or_unchanged jobs (insert_job j jobs)))
unfolding insert_job row
insert-attempts id j jobs =
    elim (Bool-cases (is_some (row (λ k. k.id) j.id jobs) || exists (collides j) jobs)) [
      | inl refused ↦ rw refused (omega arith)
      | inr taken ↦
          rw taken
            (elim (Bool-cases (j.id == id)) [ inl same ↦ ground arith | inr other ↦ ground arith ])
    ]

update-attempts :
    (id : ℕ) (p : Job → Bool) (f : Job → Job)
    → ((j : Job) → (f j).id ≡ j.id)
    → ((j : Job) → (f j).attempts ≡ j.attempts)
    → (jobs : List Job)
    → attempts_of (row (λ j. j.id) id jobs) ≤ attempts_of (row (λ j. j.id) id (update p f jobs))
unfolding update row
update-attempts id p f same a [] = omega arith
update-attempts id p f same a (j ∷ js) =
    ground (arith, same j, a j, update-attempts id p f same a js)

Claims-attempts :
    (id owner : ℕ) (ttl : Duration) (now : ℕ) (locked : ℕ → Bool) (jobs : List Job)
    (r : List Job × Option ClaimedJob)
    → Claims owner ttl now locked jobs r
    → hands_out id r.1 + attempts_of (row (λ j. j.id) id jobs)
      ≤ attempts_of (row (λ j. j.id) id r.0)
Claims-attempts id owner ttl now locked jobs (after, none) c = rw c.1 (omega arith)
Claims-attempts id owner ttl now locked jobs (after, some c) (n, here, next, same, rows) =
    elim (Bool-cases (c.id == id)) [
      | inl hit ↦ ground (arith, rows id)
      | inr miss ↦ ground (arith, rows id)
    ]

step-attempts :
    (id : ℕ) (jobs : List Job) (e : Event)
    → Sound jobs
    → starts_of id jobs e + attempts_of (row (λ j. j.id) id jobs)
      ≤ attempts_of (row (λ j. j.id) id (step jobs e))
unfolding step starts_of renew release finish record_success record_end
step-attempts id jobs (queues i t s n k p now) _ =
    omega (arith, insert-attempts id (queued_job i t s n k p now) jobs)
step-attempts id jobs (starts i t n k now) _ =
    omega (arith, insert-attempts id (started_job i t n k now) jobs)
step-attempts id jobs (claims owner ttl now locked) s =
    Claims-attempts id owner ttl now locked jobs (claim owner ttl now locked jobs)
      (claim-Claims owner ttl now locked jobs s.keyed)
step-attempts id jobs (renews i o ttl now) _ = omega (
  arith,
  update-attempts id (is_renewable i o) (extend_lease ttl now) (λ j. refl) (λ j. refl) jobs,
)
step-attempts id jobs (releases i o now) _ =
    omega (arith, update-attempts id (is_held i o) (drop_lease now) (λ j. refl) (λ j. refl) jobs)
step-attempts id jobs (finishes i o e m now) _ = omega (
  arith,
  update-attempts id (is_held i o) (close_job (ending_state e) m now) (λ j. refl) (λ j. refl) jobs,
)
step-attempts id jobs (reaps now) _ = omega (
  arith,
  update-attempts id (is_abandoned now) (close_job JobState.failed reap_message now) (λ j. refl)
      (λ j. refl) jobs,
)
step-attempts id jobs (succeeds i t now) _ =
    omega (
      arith,
      update-attempts id (is_of_tenant i t) (mark_succeeded now) (λ j. refl) (λ j. refl) jobs,
    )
step-attempts id jobs (ends i t e m now) _ = omega (
  arith,
  update-attempts id (is_of_tenant i t) (mark_ended (ending_state e) m now) (λ j. refl) (λ j. refl)
      jobs,
)

run-attempts :
    (id : ℕ) (jobs : List Job) (es : List Event)
    → Sound jobs
    → handed_out id jobs es + attempts_of (row (λ j. j.id) id jobs)
      ≤ attempts_of (row (λ j. j.id) id (run jobs es))
unfolding run handed_out
run-attempts id jobs [] s = omega arith
run-attempts id jobs (e ∷ es) s =
    omega (arith, step-attempts id jobs e s, run-attempts id (step jobs e) es (step-Sound jobs e s))

-- Over any history from a sound table, by any number of control planes, a job is handed to a runner
-- at most once, and not at all if it had been started before the history began.
pub handed_out_once :
    (id : ℕ) (jobs : List Job) (es : List Event)
    → Sound jobs
    → handed_out id jobs es + attempts_of (row (λ j. j.id) id jobs) ≤ 1
handed_out_once id jobs es s =
    omega
      (arith, run-attempts id jobs es s, row-IsSound id (run jobs es) (run-Sound jobs es s).rows)
