-- ===== src/Scheduler/Materialize/Created.antt =====
-- What a pass over the due schedules inserts.
use mathlib.Core.List.{Memᴰ, append_assoc}
use fleetward.Base.{
  ℕ, ◌+◌, ◌≤◌, ◌≡◌, refl, subst, ◌∙◌, inl, inr, List, [], ◌∷◌, ◌++◌, Option, none, some, arith,
  ◌==◌, Bool-cases, length, All, All-map, All-append, length-append,
}
use fleetward.Scheduler.Rows.{Job}
use fleetward.Scheduler.Jobs.{insert_job, or_unchanged}
use fleetward.Scheduler.Jobs.Trace.{Sound, insert-Sound}
use fleetward.Scheduler.Cron.{Cron, Checked, ok, err, next_run}
use fleetward.Scheduler.Schedules.{Schedule}
use fleetward.Scheduler.Runner.{Json}
use fleetward.Scheduler.Materialize.{
  Tables, Due, advance, queue_row, job_of, after_advance, with_next, materialize_one,
  materialize_all, due_schedules, materialize,
}

module _ (cron : Cron) (json : Json) (tenant now : ℕ) (new_id : ℕ → ℕ) where
  -- A job as the pass queues it for one of these schedules: due at once, never started and under
  -- no lease.
  abbrev pub IsQueued : List Due → Job → Type 0
  IsQueued ds j = (d : Due) × Memᴰ d ds × (j ≡ job_of cron json tenant now new_id d.schedule)

  -- The pass puts `n` jobs before those that were there.
  abbrev pub Adds : List Due → ℕ → Tables → Tables → Type 0
  Adds ds n t after =
      (new : List Job) × (after.jobs ≡ new ++ t.jobs)
      × (length new ≡ n)
      × (n ≤ length ds)
      × All (IsQueued ds) new

  Adds-nothing :
      (ds : List Due) (t : Tables) (rows : List Schedule)
      → Adds ds 0 t (record t { schedules = rows })
  Adds-nothing ds t rows = ([], refl, refl, omega arith, tt)

  insert_job-Adds :
      (d : Due) (t : Tables) (rows : List Schedule) (r : Option (List Job))
      → insert_job (job_of cron json tenant now new_id d.schedule) t.jobs ≡ r
      → Adds
          (d ∷ [])
          (queue_row (record t { schedules = rows }) r).1
          t
          (queue_row (record t { schedules = rows }) r).0
  insert_job-Adds d t rows none e = Adds-nothing (d ∷ []) t rows
  insert_job-Adds d t rows (some jobs) e =
      let j = job_of cron json tenant now new_id d.schedule in
      (
        j ∷ [],
        unfold insert_job in ground arith,
        refl,
        omega arith,
        ((d, Memᴰ.head refl, refl), tt),
      )

  after_advance-Adds :
      (d : Due) (t : Tables) (r : List Schedule × ℕ)
      → Adds
          (d ∷ [])
          (after_advance cron json tenant now new_id d.schedule t r).1
          t
          (after_advance cron json tenant now new_id d.schedule t r).0
  after_advance-Adds d t (rows, n) = elim (Bool-cases (n == 0)) [
    | inl lost ↦ rw lost (Adds-nothing (d ∷ []) t rows)
    | inr won ↦ rw won (insert_job-Adds d t rows _ refl)
  ]

  materialize_one-Adds :
      (d : Due) (t : Tables)
      → Adds
          (d ∷ [])
          (materialize_one cron json tenant now new_id d t).1
          t
          (materialize_one cron json tenant now new_id d t).0
  unfolding materialize_one
  materialize_one-Adds d t =
      by_next (next_run cron d.schedule.cron_expression d.schedule.timezone now)
    where
      by_next :
          (r : Checked ℕ)
          → Adds
              (d ∷ [])
              (with_next cron json tenant now new_id d t r).1
              t
              (with_next cron json tenant now new_id d t r).0
      by_next (err e) = Adds-nothing (d ∷ []) t t.schedules
      by_next (ok next) =
          after_advance-Adds d t (advance d.schedule.id next d.next_run_at now t.schedules)

  Adds-joined :
      (d : Due) (ds : List Due) (n m : ℕ) (t u v : Tables)
      → Adds (d ∷ []) n t u
      → Adds ds m u v
      → Adds (d ∷ ds) (n + m) t v
  Adds-joined d ds n m t u v (as_, ea, la, ba, qa) (bs, eb, lb, bb, qb) = (
    bs ++ as_,
    eb ∙ rw (ea, append_assoc),
    omega (arith, length-append bs as_),
    omega arith,
    All-append (IsQueued (d ∷ ds)) bs as_ (All-map (λ j q. (q.0, Memᴰ.tail q.1, q.2)) bs qb)
        (All-map (λ j q. (q.0, widen q.0 q.1, q.2)) as_ qa),
  )
    where
      widen : (e : Due) → Memᴰ e (d ∷ []) → Memᴰ e (d ∷ ds)
      widen e (Memᴰ.head h) = Memᴰ.head h
      widen e (Memᴰ.tail h) = elim h [ ]

  materialize_all-Adds :
      (ds : List Due) (t : Tables)
      → Adds ds
          (materialize_all cron json tenant now new_id ds t).1
          t
          (materialize_all cron json tenant now new_id ds t).0
  unfolding materialize_all
  materialize_all-Adds [] t = Adds-nothing [] t t.schedules
  materialize_all-Adds (d ∷ ds) t =
      Adds-joined d ds (materialize_one cron json tenant now new_id d t).1
        (materialize_all cron json tenant now new_id ds
          (materialize_one cron json tenant now new_id d t).0).1
        t (materialize_one cron json tenant now new_id d t).0
        (materialize_all cron json tenant now new_id ds
          (materialize_one cron json tenant now new_id d t).0).0
        (materialize_one-Adds d t)
        (materialize_all-Adds ds (materialize_one cron json tenant now new_id d t).0)

  queue_row-Sound :
      (s : Schedule) (t : Tables) (r : Option (List Job))
      → insert_job (job_of cron json tenant now new_id s) t.jobs ≡ r
      → Sound t.jobs
      → Sound (queue_row t r).0.jobs
  queue_row-Sound s t none e sound = sound
  queue_row-Sound s t (some jobs) e sound =
      subst (λ r. Sound (or_unchanged t.jobs r)) e
        (insert-Sound (job_of cron json tenant now new_id s) t.jobs (ground arith) sound)

  after_advance-Sound :
      (s : Schedule) (t : Tables) (r : List Schedule × ℕ)
      → Sound t.jobs
      → Sound (after_advance cron json tenant now new_id s t r).0.jobs
  after_advance-Sound s t (rows, n) sound = elim (Bool-cases (n == 0)) [
    | inl lost ↦ rw lost sound
    | inr won ↦ rw won (queue_row-Sound s (record t { schedules = rows }) _ refl sound)
  ]

  materialize_one-Sound :
      (d : Due) (t : Tables)
      → Sound t.jobs
      → Sound (materialize_one cron json tenant now new_id d t).0.jobs
  unfolding materialize_one
  materialize_one-Sound d t sound =
      by_next (next_run cron d.schedule.cron_expression d.schedule.timezone now)
    where
      by_next : (r : Checked ℕ) → Sound (with_next cron json tenant now new_id d t r).0.jobs
      by_next (err e) = sound
      by_next (ok next) =
          after_advance-Sound d.schedule t
            (advance d.schedule.id next d.next_run_at now t.schedules) sound

  materialize_all-Sound :
      (ds : List Due) (t : Tables)
      → Sound t.jobs
      → Sound (materialize_all cron json tenant now new_id ds t).0.jobs
  unfolding materialize_all
  materialize_all-Sound [] t sound = sound
  materialize_all-Sound (d ∷ ds) t sound =
      materialize_all-Sound ds (materialize_one cron json tenant now new_id d t).0
        (materialize_one-Sound d t sound)

  -- From a table that is sound, one pass creates jobs in front of those that were there and makes
  -- no other change to them: as many as it counts, no more than there were due schedules, and
  -- each queued for one of those with that schedule's snapshot. The table is sound afterwards.
  pub materialize-Adds :
      (t : Tables)
      → Sound t.jobs
      → let after = materialize cron json tenant now new_id t in
        let due = due_schedules tenant now t.schedules in
        Adds due after.1 t after.0 × Sound after.0.jobs
  unfolding materialize
  materialize-Adds t s = (
    materialize_all-Adds (due_schedules tenant now t.schedules) t,
    materialize_all-Sound (due_schedules tenant now t.schedules) t s,
  )
