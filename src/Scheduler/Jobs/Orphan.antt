-- ===== src/Scheduler/Jobs/Orphan.antt =====
-- A run that a person asked for, and whose control plane is gone: no lease names it.
use fleetward.Base.{
  ℕ, ◌≡◌, refl, ◌∙◌, ap, row-key, inl, inr, Bool, true, false, ◌&&◌, ◌||◌, List, [], ◌∷◌, Option,
  none, some, arith, ◌==◌, Bool-cases, is_some, holds, All, exists, update, row, row-update-some,
}
use fleetward.Scheduler.Rows.{JobState, Job, is_running}
use fleetward.Scheduler.Lease.{
  Duration, ClaimedJob, claim, renew, release, finish, extend_lease, drop_lease, close_job, is_held,
  is_renewable,
}
use fleetward.Scheduler.Lease.Claim.{Claims, claim-Claims}
use fleetward.Scheduler.Reaper.{has_expired, is_abandoned, reap_message}
use fleetward.Scheduler.Jobs.Trace.{Sound, step-Sound}
use fleetward.Scheduler.Jobs.{
  kind_number, is_active, collides, insert_job, queued_job, started_job, is_of_tenant,
  mark_succeeded, mark_ended, record_success, record_end, ending_state, Event, queues, starts,
  claims, renews, releases, finishes, reaps, succeeds, ends, or_unchanged, step, run,
}

-- Running, and without a lease.
abbrev pub IsUnleased : Job → Type 0
IsUnleased j = (j.state ≡ JobState.running) × (j.lease_owner ≡ none) × (j.lease_expires_at ≡ none)

-- The service that runs the job is the only one to record how it ended.
abbrev pub is_account_of : ℕ → Event → Bool
is_account_of id (succeeds i tenant now) = i == id
is_account_of id (ends i tenant ending message now) = i == id
is_account_of id _ = false

abbrev job_row : ℕ → List Job → Option Job
job_row = row (λ j. j.id)

module _ (id : ℕ) (j : Job) (unleased : IsUnleased j) where
  update-keeps :
      (p : Job → Bool) (f : Job → Job) (same : (k : Job) → (f k).id ≡ k.id) (jobs : List Job)
      → p j ≡ false
      → job_row id jobs ≡ some j
      → job_row id (update p f jobs) ≡ some j
  update-keeps p f same jobs miss here = row-update-some (λ k. k.id) p f same id jobs here ∙ rw miss

  insert-keeps :
      (k : Job) (jobs : List Job)
      → job_row id jobs ≡ some j
      → job_row id (or_unchanged jobs (insert_job k jobs)) ≡ some j
  unfolding insert_job row
  insert-keeps k jobs here =
      elim (Bool-cases (is_some (job_row k.id jobs) || exists (collides k) jobs)) [
        | inl refused ↦ rw refused here
        | inr taken ↦ rw taken (elim (Bool-cases (k.id == id)) [
          | inl same ↦ absurd (ground arith)
          | inr other ↦ rw other here
        ])
      ]

  claim-keeps :
      (owner : ℕ) (ttl : Duration) (now : ℕ) (locked : ℕ → Bool) (jobs : List Job)
      (r : List Job × Option ClaimedJob)
      → Claims owner ttl now locked jobs r
      → job_row id jobs ≡ some j
      → job_row id r.0 ≡ some j
  claim-keeps owner ttl now locked jobs (later, none) claims' here = rw claims'.1 here
  claim-keeps owner ttl now locked jobs (later, some c) (n, mine, next, took, rows) here =
      elim (Bool-cases (id == c.id)) [
        | inl same ↦ absurd (ground (arith, next.0, unleased.0))
        | inr other ↦ rows id ∙ rw other here
      ]

  unheld : (i owner : ℕ) → is_held i owner j ≡ false
  unheld i owner = ap (λ o. j.id == i && holds o owner) unleased.1 ∙ ground arith

  unexpired : (now : ℕ) → is_abandoned now j ≡ false
  unexpired now = ap (λ o. is_running j.state && has_expired o now) unleased.2 ∙ ground arith

  unaccounted :
      (i tenant : ℕ) (jobs : List Job)
      → (i == id) ≡ false
      → job_row id jobs ≡ some j
      → is_of_tenant i tenant j ≡ false
  unaccounted i tenant jobs other here =
      let mine : j.id ≡ id = row-key (λ k. k.id) id jobs here in ground arith

  step-keeps :
      (jobs : List Job) (e : Event)
      → Sound jobs
      → is_account_of id e ≡ false
      → job_row id jobs ≡ some j
      → job_row id (step jobs e) ≡ some j
  unfolding step renew release finish record_success record_end
  step-keeps jobs (queues i tenant schedule instance_id kind payload now) sound other here =
      insert-keeps (queued_job i tenant schedule instance_id kind payload now) jobs here
  step-keeps jobs (starts i tenant instance_id kind now) sound other here =
      insert-keeps (started_job i tenant instance_id kind now) jobs here
  step-keeps jobs (claims owner ttl now locked) sound other here =
      claim-keeps owner ttl now locked jobs (claim owner ttl now locked jobs)
        (claim-Claims owner ttl now locked jobs sound.keyed) here
  step-keeps jobs (renews i owner ttl now) sound other here =
      update-keeps (is_renewable i owner) (extend_lease ttl now) (λ k. refl) jobs
        (ground (arith, unheld i owner)) here
  step-keeps jobs (releases i owner now) sound other here =
      update-keeps (is_held i owner) (drop_lease now) (λ k. refl) jobs (unheld i owner) here
  step-keeps jobs (finishes i owner ending message now) sound other here =
      update-keeps (is_held i owner) (close_job (ending_state ending) message now) (λ k. refl) jobs
        (unheld i owner) here
  step-keeps jobs (reaps now) sound other here =
      update-keeps (is_abandoned now) (close_job JobState.failed reap_message now) (λ k. refl) jobs
        (unexpired now) here
  step-keeps jobs (succeeds i tenant now) sound other here =
      update-keeps (is_of_tenant i tenant) (mark_succeeded now) (λ k. refl) jobs
        (unaccounted i tenant jobs other here) here
  step-keeps jobs (ends i tenant ending message now) sound other here =
      update-keeps (is_of_tenant i tenant) (mark_ended (ending_state ending) message now)
        (λ k. refl) jobs (unaccounted i tenant jobs other here) here

  run-keeps :
      (jobs : List Job) (es : List Event)
      → Sound jobs
      → All (λ e. is_account_of id e ≡ false) es
      → job_row id jobs ≡ some j
      → job_row id (run jobs es) ≡ some j
  unfolding run
  run-keeps jobs [] sound others here = here
  run-keeps jobs (e ∷ es) sound others here =
      run-keeps (step jobs e) es (step-Sound jobs e sound) others.1
        (step-keeps jobs e sound others.0 here)

row-exists :
    (p : Job → Bool) (id : ℕ) (jobs : List Job) {j : Job}
    → job_row id jobs ≡ some j
    → p j ≡ true
    → exists p jobs ≡ true
unfolding row
row-exists p id [] e h = absurd (cc)
row-exists p id (k ∷ ks) {j} e h = ground (arith, row-exists p id ks {j = j})

-- A job that runs without a lease, as one does that a person asked for, is closed by nobody but the
-- service that runs it: through any history in which that service records no ending of it, as when
-- its control plane was killed, the row stays as it is, whatever is claimed, renewed, finished or
-- reaped. And as long as it does, no job of its kind, pending or running, can be inserted for its
-- instance.
pub unleased_job_stays :
    (id : ℕ) (j : Job) (jobs : List Job) (es : List Event) (k : Job)
    → IsUnleased j
    → Sound jobs
    → row (λ i. i.id) id jobs ≡ some j
    → All (λ e. is_account_of id e ≡ false) es
    → (is_active k.state
        && k.instance_id == j.instance_id
        && kind_number k.kind == kind_number j.kind)
      ≡ true
    → (row (λ i. i.id) id (run jobs es) ≡ some j) × (insert_job k (run jobs es) ≡ none)
unfolding insert_job is_active
unleased_job_stays id j jobs es k unleased sound here others same =
    let stays = run-keeps id j unleased jobs es sound others here in
    let blocked : exists (collides k) (run jobs es) ≡ true =
      row-exists (collides k) id (run jobs es) stays (
        ap
          (λ s.
            is_active k.state
            && is_active s
            && k.instance_id == j.instance_id
            && kind_number k.kind == kind_number j.kind)
          unleased.0
        ∙ ground arith) in
    (stays, ground (arith, blocked))
