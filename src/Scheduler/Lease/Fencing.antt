-- ===== src/Scheduler/Lease/Fencing.antt =====
-- What the lease keeps out: a runner that no longer holds it cannot write the job's outcome.

use fleetward.Base.{
  ℕ, ◌+◌, ◌≡◌, refl, ◌⊎◌, inl, inr, true, false, ◌&&◌, List, some, String, arith, if◌then◌else◌,
  Bool-cases, holds, affected, update-none, row, row-key, row-update-some, affected-row, IsKeyed,
}
use fleetward.Scheduler.Rows.{JobState, is_running, Job}
use fleetward.Scheduler.Lease.{
  Duration, interval, is_held, is_renewable, renewed, lease_lost, extend_lease, renew, drop_lease,
  release, close_job, finish,
}

is_held-id : (id owner : ℕ) (j : Job) → is_held id owner j ≡ true → j.id ≡ id
is_held-id id owner j h = ground arith

is_renewable-id : (id owner : ℕ) (j : Job) → is_renewable id owner j ≡ true → j.id ≡ id
is_renewable-id id owner j h = ground arith

-- An UPDATE that finds no row leaves the table as it was.
renew_unheld :
    (id owner : ℕ) (ttl : Duration) (now : ℕ) (jobs : List Job)
    → affected (is_renewable id owner) jobs ≡ 0
    → renew id owner ttl now jobs ≡ (jobs, lease_lost)
unfolding renew
renew_unheld id owner ttl now jobs e =
    ground (arith, update-none (is_renewable id owner) (extend_lease ttl now) jobs e)

module _ (id owner now : ℕ) (jobs : List Job) (n : Job) (keyed : IsKeyed (λ j. j.id) jobs)
    (here : row (λ j. j.id) id jobs ≡ some n) where
  owner_row : n.id ≡ id
  owner_row = row-key (λ j. j.id) id jobs here

  renewable_count :
      affected (is_renewable id owner) jobs ≡ (if is_renewable id owner n then 1 else 0)
  renewable_count =
      affected-row (λ j. j.id) id (is_renewable id owner) jobs (is_renewable-id id owner) keyed here

  held_count : affected (is_held id owner) jobs ≡ (if is_held id owner n then 1 else 0)
  held_count = affected-row (λ j. j.id) id (is_held id owner) jobs (is_held-id id owner) keyed here

  -- Where ids are unique, a heartbeat succeeds exactly when the job is still running under this
  -- owner's lease: it then moves the expiry to a full term from now. Otherwise it reports the
  -- lease lost and writes nothing.
  pub renew_cases :
      (ttl : Duration)
      → let extended = record n {
        lease_expires_at = some (now + interval ttl);
        heartbeat_at = some now;
        updated_at = now;
      } in
        ((holds n.lease_owner owner ≡ true)
          × (is_running n.state ≡ true)
          × ((renew id owner ttl now jobs).1 ≡ renewed)
          × (row (λ j. j.id) id (renew id owner ttl now jobs).0 ≡ some extended))
        ⊎ (((holds n.lease_owner owner && is_running n.state) ≡ false)
            × (renew id owner ttl now jobs ≡ (jobs, lease_lost)))
  unfolding renew
  renew_cases ttl = elim (Bool-cases (holds n.lease_owner owner && is_running n.state)) [
    | inl mine ↦ inl (
      ground arith,
      ground arith,
      ground (arith, renewable_count, owner_row),
      ground (
        arith,
        owner_row,
        row-update-some (λ j. j.id) (is_renewable id owner) (extend_lease ttl now) (λ j. refl) id
            jobs here,
      ),
    )
    | inr lost ↦ inr (lost, renew_unheld id owner ttl now jobs (ground (arith, renewable_count)))
  ]

  -- Where ids are unique, a runner whose lease another process has taken away writes nothing: its
  -- heartbeat says so, and neither `release` nor `finish` touches any row.
  pub not_held_is_fenced :
      (ttl : Duration) (state : JobState) (message : String)
      → holds n.lease_owner owner ≡ false
      → (renew id owner ttl now jobs ≡ (jobs, lease_lost))
        × (release id owner now jobs ≡ jobs)
        × (finish id owner state message now jobs ≡ jobs)
  unfolding renew release finish
  not_held_is_fenced ttl state message lost = (
    renew_unheld id owner ttl now jobs (ground (arith, renewable_count)),
    update-none (is_held id owner) (drop_lease now) jobs (ground (arith, held_count)),
    update-none (is_held id owner) (close_job state message now) jobs (ground (arith, held_count)),
  )
