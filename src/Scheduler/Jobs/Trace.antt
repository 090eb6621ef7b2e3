-- ===== src/Scheduler/Jobs/Trace.antt =====
-- What holds of `jobs` after any history of statements, by any number of control planes.
use fleetward.Base.{
  ℕ, ◌≤◌, ◌≡◌, refl, ap, inl, inr, Bool, true, false, ◌||◌, List, [], ◌∷◌, none, arith, ◌==◌,
  Bool-cases, Option-cases, is_some, All, All-map, All-update, All-true, exists, update, row,
  row-keyed, IsKeyed, IsKeyed-update,
}
use fleetward.Scheduler.Rows.{JobState, Job}
use fleetward.Scheduler.Lease.{
  take_lease, claim, next_due, renew, release, finish, Duration, extend_lease, drop_lease, is_held,
  is_renewable,
}
use fleetward.Scheduler.Lease.Claim.{next_due-IsNext, next_due-row}
use fleetward.Scheduler.Jobs.Active.{OneActive, Tame, update-OneActive}
use fleetward.Scheduler.Jobs.{
  kind_number, is_active, collides, insert_job, queued_job, started_job, record_success, record_end,
  success, failure, Event, queues, starts, claims, renews, releases, finishes, reaps, succeeds,
  ends, or_unchanged, step, run,
}

-- A pending job has never been started, and nobody holds a lease on it; no job was started twice.
pub record IsSound (j : Job) : Type 0 where
  pub fresh : j.state ≡ JobState.pending → j.attempts ≡ 0
  pub unleased : j.state ≡ JobState.pending → j.lease_owner ≡ none
  pub once : j.attempts ≤ 1

pub record Sound (jobs : List Job) : Type 0 where
  pub keyed : IsKeyed (λ j. j.id) jobs
  pub one_active : OneActive jobs
  pub rows : All IsSound jobs

-- An update that keeps all three.
update-Sound :
    (p : Job → Bool) (f : Job → Job)
    → ((j : Job) → (f j).id ≡ j.id)
    → (jobs : List Job) → Tame p f jobs
    → All (λ j. p j ≡ true → IsSound j → IsSound (f j)) jobs
    → Sound jobs
    → Sound (update p f jobs)
update-Sound p f same jobs tame sound s = record {
  keyed = IsKeyed-update (λ j. j.id) p f same jobs s.keyed;
  one_active = update-OneActive p f jobs tame s.one_active;
  rows = All-update IsSound p f jobs sound s.rows;
}

pub insert-Sound :
    (j : Job) (jobs : List Job)
    → IsSound j
    → Sound jobs
    → Sound (or_unchanged jobs (insert_job j jobs))
unfolding insert_job
insert-Sound j jobs i s =
    elim (Bool-cases (is_some (row (λ k. k.id) j.id jobs) || exists (collides j) jobs)) [
      | inl refused ↦ rw refused s
      | inr taken ↦ rw taken (record {
        keyed = (ground arith, s.keyed);
        one_active = (ground arith, s.one_active);
        rows = (i, s.rows);
      })
    ]

claimed_once :
    (owner : ℕ) (ttl : Duration) (now : ℕ) (j : Job)
    → IsSound j
    → j.state ≡ JobState.pending
    → IsSound (take_lease owner ttl now j)
claimed_once owner ttl now j i p = ground arith

claim-Sound :
    (owner : ℕ) (ttl : Duration) (now : ℕ) (locked : ℕ → Bool) (jobs : List Job)
    → Sound jobs
    → Sound (claim owner ttl now locked jobs).0
unfolding claim is_active
claim-Sound owner ttl now locked jobs s = elim (Option-cases (next_due now locked jobs)) [
  | inl nothing ↦ rw nothing s
  | inr (n, found) ↦
      let due = (rw found at (next_due-IsNext now locked jobs)).0 in
      let only =
        row-keyed (λ j. j.id) n.id jobs s.keyed (next_due-row now locked jobs s.keyed found) in
      rw found (
        update-Sound (λ k. k.id == n.id) (take_lease owner ttl now) (λ j. refl) jobs
          (All-map (λ j same hit. (refl, refl, λ _. ground (arith, same hit))) jobs only)
          (All-map (λ j same hit i. claimed_once owner ttl now j i (ground (arith, same hit))) jobs
            only)
          s)
]

renew-Sound :
    (id owner : ℕ) (ttl : Duration) (now : ℕ) (jobs : List Job)
    → Sound jobs
    → Sound (renew id owner ttl now jobs).0
unfolding renew
renew-Sound id owner ttl now jobs =
    update-Sound (is_renewable id owner) (extend_lease ttl now) (λ j. refl) jobs
      (All-true _ (λ j hit. (refl, refl, λ a. a)) jobs)
      (All-true _ (λ j hit i. record { fresh = i.fresh; unleased = i.unleased; once = i.once })
        jobs)

release-Sound :
    (id owner now : ℕ) (jobs : List Job) → Sound jobs → Sound (release id owner now jobs)
unfolding release
release-Sound id owner now jobs =
    update-Sound (is_held id owner) (drop_lease now) (λ j. refl) jobs
      (All-true _ (λ j hit. (refl, refl, λ a. a)) jobs)
      (All-true _ (λ j hit i. record { fresh = i.fresh; unleased = λ _. refl; once = i.once }) jobs)

closed-Sound :
    (p : Job → Bool) (f : Job → Job)
    → ((j : Job) → (f j).id ≡ j.id)
    → ((j : Job) → (f j).instance_id ≡ j.instance_id)
    → ((j : Job) → (f j).kind ≡ j.kind)
    → ((j : Job) → (f j).attempts ≡ j.attempts)
    → ((j : Job) → is_active (f j).state ≡ false)
    → (jobs : List Job) → Sound jobs
    → Sound (update p f jobs)
unfolding is_active
closed-Sound p f same i k a closed jobs =
    update-Sound p f same jobs
      (All-true _ (λ j hit. (i j, ap kind_number (k j), λ h. ground (arith, closed j))) jobs)
      (All-true _ (λ j hit s. closed_once j (f j) (a j) (closed j) s) jobs)
  where
    closed_once :
        (j k : Job) → k.attempts ≡ j.attempts → is_active k.state ≡ false → IsSound j → IsSound k
    closed_once j k e c s = ground arith

-- Every statement, by any process at any time, keeps the table sound.
pub step-Sound : (jobs : List Job) (e : Event) → Sound jobs → Sound (step jobs e)
unfolding step finish record_success record_end is_active
step-Sound jobs (queues id tenant schedule instance_id kind payload now) s =
    insert-Sound (queued_job id tenant schedule instance_id kind payload now) jobs (ground arith) s
step-Sound jobs (starts id tenant instance_id kind now) s =
    insert-Sound (started_job id tenant instance_id kind now) jobs (ground arith) s
step-Sound jobs (claims owner ttl now locked) s = claim-Sound owner ttl now locked jobs s
step-Sound jobs (renews id owner ttl now) s = renew-Sound id owner ttl now jobs s
step-Sound jobs (releases id owner now) s = release-Sound id owner now jobs s
step-Sound jobs (finishes id owner success message now) s =
    closed-Sound _ _ (λ j. refl) (λ j. refl) (λ j. refl) (λ j. refl) (λ j. refl) jobs s
step-Sound jobs (finishes id owner failure message now) s =
    closed-Sound _ _ (λ j. refl) (λ j. refl) (λ j. refl) (λ j. refl) (λ j. refl) jobs s
step-Sound jobs (reaps now) s =
    closed-Sound _ _ (λ j. refl) (λ j. refl) (λ j. refl) (λ j. refl) (λ j. refl) jobs s
step-Sound jobs (succeeds id tenant now) s =
    closed-Sound _ _ (λ j. refl) (λ j. refl) (λ j. refl) (λ j. refl) (λ j. refl) jobs s
step-Sound jobs (ends id tenant success message now) s =
    closed-Sound _ _ (λ j. refl) (λ j. refl) (λ j. refl) (λ j. refl) (λ j. refl) jobs s
step-Sound jobs (ends id tenant failure message now) s =
    closed-Sound _ _ (λ j. refl) (λ j. refl) (λ j. refl) (λ j. refl) (λ j. refl) jobs s

-- After any history of statements, from a sound table: no two rows have one id, no instance has two
-- active jobs of one kind, no job was started twice, and a pending job has no start and no lease.
pub run-Sound : (jobs : List Job) (es : List Event) → Sound jobs → Sound (run jobs es)
unfolding run
run-Sound jobs [] s = s
run-Sound jobs (e ∷ es) s = run-Sound (step jobs e) es (step-Sound jobs e s)
