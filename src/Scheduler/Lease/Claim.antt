-- ===== src/Scheduler/Lease/Claim.antt =====
-- What a claim takes: the job that the subselect names, and how its row reads afterwards.

use fleetward.Base.{
  ℕ, ◌+◌, ap, pos, negsuc, pos_part, ◌≤◌, ◌≡◌, refl, ◌∙◌, ◌⊎◌, inl, inr, Bool, true, false, List,
  [], ◌∷◌, Option, none, some, arith, leb, ◌==◌, if◌then◌else◌, eq→==, ==→eq, Bool-cases,
  Option-cases, All, All-map, update, row, row-update-some, row-update_ne, IsKeyed,
}
use fleetward.Scheduler.Rows.{JobState, Job}
use fleetward.Scheduler.Lease.{
  Duration, interval, coalesce, ClaimedJob, is_claimable, earlier, next_due, take_lease, claim,
}

module _ (now : ℕ) (locked : ℕ → Bool) where
  -- The subselect finds a claimable job, and none that is due earlier.
  abbrev pub IsNext : Option Job → List Job → Type 0
  IsNext none jobs = All (λ j. is_claimable now locked j ≡ false) jobs
  IsNext (some n) jobs =
      (is_claimable now locked n ≡ true)
      × All (λ j. (is_claimable now locked j ≡ false) ⊎ (n.scheduled_for ≤ j.scheduled_for)) jobs

  earlier-IsNext :
      (j : Job) (js : List Job) (rest : Option Job)
      → IsNext rest js
      → IsNext (if is_claimable now locked j then earlier j rest else rest) (j ∷ js)
  earlier-IsNext j js none h = elim (Bool-cases (is_claimable now locked j)) [
    | inl yes_it ↦ rw yes_it (yes_it, (inr (omega arith), All-map (λ k miss. inl miss) js h))
    | inr no_it ↦ rw no_it (no_it, h)
  ]
  earlier-IsNext j js (some n) h = elim (Bool-cases (is_claimable now locked j)) [
    | inl yes_it ↦ elim (Bool-cases (leb j.scheduled_for n.scheduled_for)) [
      | inl first ↦
          rw (yes_it, first) (yes_it, (inr (omega arith), All-map (λ k bound. ground arith) js h.1))
      | inr later ↦ rw (yes_it, later) (h.0, (inr (ground arith), h.1))
    ]
    | inr no_it ↦ rw no_it (h.0, (inl no_it, h.1))
  ]

  pub next_due-IsNext : (jobs : List Job) → IsNext (next_due now locked jobs) jobs
  unfolding next_due
  next_due-IsNext [] = tt
  next_due-IsNext (j ∷ js) = earlier-IsNext j js (next_due now locked js) (next_due-IsNext js)

  pub next_due-row :
      (jobs : List Job) {n : Job}
      → IsKeyed (λ j. j.id) jobs
      → next_due now locked jobs ≡ some n
      → row (λ j. j.id) n.id jobs ≡ some n
  unfolding next_due row
  next_due-row [] k e = cc
  next_due-row (j ∷ js) {n} k e = ground (arith, next_due-row js {n = n} k.1)

claim-row :
    (owner : ℕ) (ttl : Duration) (now : ℕ) (n : Job) (jobs : List Job)
    → row (λ j. j.id) n.id jobs ≡ some n
    → (id : ℕ)
    → row (λ j. j.id) id (update (λ k. k.id == n.id) (take_lease owner ttl now) jobs)
      ≡ (if id == n.id then some (take_lease owner ttl now n) else row (λ j. j.id) id jobs)
claim-row owner ttl now n jobs mine id = elim (Bool-cases (id == n.id)) [
  | inl same ↦
      rw (same, ==→eq id n.id same)
        (row-update-some (λ j. j.id) (λ k. k.id == n.id) (take_lease owner ttl now) (λ x. refl) n.id
            jobs mine
          ∙ rw (eq→== n.id n.id refl))
  | inr other ↦ rw other (
      row-update_ne (λ j. j.id) (λ k. k.id == n.id) (take_lease owner ttl now) (λ x. refl) id
        (λ x hit e. ground arith) jobs)
]

abbrev first_start : Option ℕ → ℕ → ℕ
first_start none now = now
first_start (some before) now = before

first_start_lem : (o : Option ℕ) (now : ℕ) → coalesce o now ≡ first_start o now
first_start_lem none now = refl
first_start_lem (some before) now = refl

interval_lem : (ttl : Duration) → interval ttl ≡ pos_part ttl
interval_lem (pos d) = refl
interval_lem (negsuc d) = refl

-- A job under a lease that is fresh: running, the owner's until the lease's length from now, with one
-- start more, and with the instant of its first start.
abbrev pub under_lease : ℕ → Duration → ℕ → Job → Job
under_lease owner ttl now n = record n {
  state = JobState.running;
  lease_owner = some owner;
  lease_expires_at = some (now + pos_part ttl);
  heartbeat_at = some now;
  attempts = n.attempts + 1;
  started_at = some (first_start n.started_at now);
  updated_at = now;
}

take_lease_lem :
    (owner : ℕ) (ttl : Duration) (now : ℕ) (n : Job)
    → take_lease owner ttl now n ≡ under_lease owner ttl now n
take_lease_lem owner ttl now n = rw (interval_lem ttl, first_start_lem n.started_at now) refl

-- What a claim may return from a table.
abbrev pub Claims : ℕ → Duration → ℕ → (ℕ → Bool) → List Job → List Job × Option ClaimedJob → Type 0
Claims owner ttl now locked jobs (after, none) =
    All (λ j. is_claimable now locked j ≡ false) jobs × (after ≡ jobs)
Claims owner ttl now locked jobs (after, some c) =
    (n : Job) × (row (λ j. j.id) c.id jobs ≡ some n)
    × IsNext now locked (some n) jobs
    × (c ≡ record {
      id = n.id;
      tenant_id = n.tenant_id;
      instance_id = n.instance_id;
      schedule_id = n.schedule_id;
      kind = n.kind;
      payload = n.payload;
      attempts = n.attempts + 1;
    })
    × ((id : ℕ)
        → row (λ j. j.id) id after
          ≡ (if id == c.id then some (under_lease owner ttl now n) else row (λ j. j.id) id jobs))

-- A claim on a table with unique ids either finds no claimable job, and leaves the table as it was,
-- or takes one that no claimable job is due before. The row it took is then running under this
-- owner's lease until the lease's length from now, with one start more, the claim returns that row's
-- columns, and no other row has changed.
pub claim-Claims :
    (owner : ℕ) (ttl : Duration) (now : ℕ) (locked : ℕ → Bool) (jobs : List Job)
    → IsKeyed (λ j. j.id) jobs
    → Claims owner ttl now locked jobs (claim owner ttl now locked jobs)
unfolding claim
claim-Claims owner ttl now locked jobs k = elim (Option-cases (next_due now locked jobs)) [
  | inl nothing ↦ rw nothing (rw nothing at (next_due-IsNext now locked jobs), refl)
  | inr (n, found) ↦
      let mine = next_due-row now locked jobs k found in
      rw found (
        n,
        mine,
        rw found at (next_due-IsNext now locked jobs),
        refl,
        λ id.
            claim-row owner ttl now n jobs mine id
            ∙ ap (λ m. if id == n.id then some m else row (λ j. j.id) id jobs)
                (take_lease_lem owner ttl now n),
      )
]
