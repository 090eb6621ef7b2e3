-- ===== src/Scheduler/Runner/Settled.antt =====
-- What the end of a run writes to the rows of `jobs`.
use fleetward.Base.{
  ℕ, ◌≡◌, refl, ◌∙◌, inl, inr, Bool, false, List, Option, none, some, String, arith, if◌then◌else◌,
  Bool-cases, Option-cases, holds, row, row-key, row-update-some, row-update-none, row-update_ne,
  ◌≢◌,
}
use fleetward.Scheduler.Rows.{Kind, JobState, Job}
use fleetward.Scheduler.Lease.{ClaimedJob, is_held, close_job, drop_lease, finish, release}
use fleetward.Scheduler.Runner.{Result, ok, err, closes_itself, settle_ok, settle}

abbrev pub done : ℕ → Job → Job
done now n = record n {
  state = JobState.succeeded;
  error_message = "";
  finished_at = some now;
  lease_owner = none;
  lease_expires_at = none;
  updated_at = now;
}

-- The row that a run leaves, given the row that its work left.
abbrev pub settled : ℕ → Kind → Result (Unit {0}) → Job → Job
settled now kind (err message) n = record n {
  state = JobState.failed;
  error_message = message;
  finished_at = some now;
  lease_owner = none;
  lease_expires_at = none;
  updated_at = now;
}
settled now Kind.observe (ok _) n = done now n
settled now Kind.discovery (ok _) n = done now n
settled now _ (ok _) n = record n { lease_owner = none; lease_expires_at = none; updated_at = now }

settled_ok :
    (now : ℕ) (kind : Kind) (n : Job)
    → settled now kind (ok tt) n
      ≡ (if closes_itself kind then close_job JobState.succeeded "" now n else drop_lease now n)
settled_ok now Kind.observe n = refl
settled_ok now Kind.discovery n = refl
settled_ok now _ n = refl

finish-row :
    (id owner : ℕ) (state : JobState) (message : String) (now : ℕ) (jobs : List Job) {n : Job}
    → row (λ j. j.id) id jobs ≡ some n
    → row (λ j. j.id) id (finish id owner state message now jobs)
      ≡ some (if holds n.lease_owner owner then close_job state message now n else n)
unfolding finish
finish-row id owner state message now jobs {n} here = ground (
  arith,
  row-key (λ j. j.id) id jobs here,
  row-update-some (λ j. j.id) (is_held id owner) (close_job state message now) (λ j. refl) id jobs
      here,
)

release-row :
    (id owner now : ℕ) (jobs : List Job) {n : Job}
    → row (λ j. j.id) id jobs ≡ some n
    → row (λ j. j.id) id (release id owner now jobs)
      ≡ some (if holds n.lease_owner owner then drop_lease now n else n)
unfolding release
release-row id owner now jobs {n} here = ground (
  arith,
  row-key (λ j. j.id) id jobs here,
  row-update-some (λ j. j.id) (is_held id owner) (drop_lease now) (λ j. refl) id jobs here,
)

settle_ok-row :
    (now owner : ℕ) (job : ClaimedJob) (jobs : List Job) {n : Job}
    → row (λ j. j.id) job.id jobs ≡ some n
    → row (λ j. j.id) job.id (settle_ok now owner job jobs)
      ≡ some (if holds n.lease_owner owner then settled now job.kind (ok tt) n else n)
settle_ok-row now owner job jobs {n} here = elim (Bool-cases (closes_itself job.kind)) [
  | inl self ↦
      rw (settled_ok now job.kind n, self)
        (ground (
          arith,
          release-row job.id owner now (finish job.id owner JobState.succeeded "" now jobs)
              (finish-row job.id owner JobState.succeeded "" now jobs here),
        ))
  | inr other ↦ rw (settled_ok now job.kind n, other) (release-row job.id owner now jobs here)
]

pub settle-row :
    (now owner : ℕ) (job : ClaimedJob) (jobs : List Job) (r : Result (Unit {0})) {n : Job}
    → row (λ j. j.id) job.id jobs ≡ some n
    → row (λ j. j.id) job.id (settle now owner false job (jobs, r))
      ≡ some (if holds n.lease_owner owner then settled now job.kind r n else n)
settle-row now owner job jobs (ok tt) here = settle_ok-row now owner job jobs here
settle-row now owner job jobs (err message) here =
    finish-row job.id owner JobState.failed message now jobs here

finish-other :
    (id owner other : ℕ) (state : JobState) (message : String) (now : ℕ) (jobs : List Job)
    → other ≢ id
    → row (λ j. j.id) other (finish id owner state message now jobs) ≡ row (λ j. j.id) other jobs
unfolding finish
finish-other id owner other state message now jobs apart =
    row-update_ne (λ j. j.id) (is_held id owner) (close_job state message now) (λ j. refl) other
      (λ x hit e. apart (ground arith)) jobs

release-other :
    (id owner other now : ℕ) (jobs : List Job)
    → other ≢ id
    → row (λ j. j.id) other (release id owner now jobs) ≡ row (λ j. j.id) other jobs
unfolding release
release-other id owner other now jobs apart =
    row-update_ne (λ j. j.id) (is_held id owner) (drop_lease now) (λ j. refl) other
      (λ x hit e. apart (ground arith)) jobs

pub settle-other :
    (now owner other : ℕ) (job : ClaimedJob) (jobs : List Job) (r : Result (Unit {0}))
    → other ≢ job.id
    → row (λ j. j.id) other (settle now owner false job (jobs, r)) ≡ row (λ j. j.id) other jobs
settle-other now owner other job jobs (err message) apart =
    finish-other job.id owner other JobState.failed message now jobs apart
settle-other now owner other job jobs (ok _) apart = elim (Bool-cases (closes_itself job.kind)) [
  | inl self ↦ rw self (
      release-other job.id owner other now (finish job.id owner JobState.succeeded "" now jobs)
        apart
      ∙ finish-other job.id owner other JobState.succeeded "" now jobs apart)
  | inr left ↦ rw left (release-other job.id owner other now jobs apart)
]

abbrev pub held_by : ℕ → Option Job → Bool
held_by owner none = false
held_by owner (some n) = holds n.lease_owner owner

pub finish_lets_go :
    (id owner : ℕ) (state : JobState) (message : String) (now : ℕ) (jobs : List Job)
    → held_by owner (row (λ j. j.id) id (finish id owner state message now jobs)) ≡ false
finish_lets_go id owner state message now jobs = elim (Option-cases (row (λ j. j.id) id jobs)) [
  | inl nobody ↦
      unfold finish in
      rw (
        row-update-none (λ j. j.id) (is_held id owner) (close_job state message now) (λ j. refl) id
          jobs nobody)
  | inr (n, here) ↦ rw (finish-row id owner state message now jobs here) (ground arith)
]

release_lets_go :
    (id owner now : ℕ) (jobs : List Job)
    → held_by owner (row (λ j. j.id) id (release id owner now jobs)) ≡ false
release_lets_go id owner now jobs = elim (Option-cases (row (λ j. j.id) id jobs)) [
  | inl nobody ↦
      unfold release in
      rw
        (row-update-none (λ j. j.id) (is_held id owner) (drop_lease now) (λ j. refl) id jobs nobody)
  | inr (n, here) ↦ rw (release-row id owner now jobs here) (ground arith)
]

pub settle_lets_go :
    (now owner : ℕ) (job : ClaimedJob) (jobs : List Job) (r : Result (Unit {0}))
    → held_by owner (row (λ j. j.id) job.id (settle now owner false job (jobs, r))) ≡ false
settle_lets_go now owner job jobs (ok _) = release_lets_go job.id owner now _
settle_lets_go now owner job jobs (err message) =
    finish_lets_go job.id owner JobState.failed message now jobs
