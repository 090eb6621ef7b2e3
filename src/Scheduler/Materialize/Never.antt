-- ===== src/Scheduler/Materialize/Never.antt =====
-- A cron expression that parses and never fires, such as one for the 30th of February.
use fleetward.Base.{
  ℕ, ◌≡◌, refl, ◌∙◌, inl, inr, true, List, Option, none, some, arith, ◌==◌, eq→==, Bool-cases, row,
  row-update-some,
}
use fleetward.Scheduler.Cron.{Cron, ok, next_run}
use fleetward.Scheduler.Schedules.{Schedule}
use fleetward.Scheduler.Runner.{Json}
use fleetward.Scheduler.Jobs.{insert_job}
use fleetward.Scheduler.Materialize.{
  Tables, is_due, is_at, advance_row, advance, queue_row, job_of, after_advance, materialize_one,
}

queue_row-schedules : (t : Tables) (r : Option (List _)) → (queue_row t r).0.schedules ≡ t.schedules
queue_row-schedules t none = refl
queue_row-schedules t (some jobs) = refl

module _ (cron : Cron) (json : Json) (tenant now : ℕ) (new_id : ℕ → ℕ) where
  after_advance-schedules :
      (s : Schedule) (t : Tables) (r : List Schedule × ℕ)
      → (after_advance cron json tenant now new_id s t r).0.schedules ≡ r.0
  after_advance-schedules s t (rows, n) = elim (Bool-cases (n == 0)) [
    | inl lost ↦ rw lost
    | inr won ↦ rw won (
        queue_row-schedules (record t { schedules = rows })
          (insert_job (job_of cron json tenant now new_id s) t.jobs))
  ]

  -- When the next run of a due schedule is the zero time, which says that there is none, the pass
  -- stores that instant in the schedule's row; the row is then due again at every instant, and so
  -- at every tick.
  pub never_firing_is_always_due :
      (t : Tables) (s : Schedule) (old later : ℕ)
      → row (λ s'. s'.id) s.id t.schedules ≡ some s
      → is_due tenant now s ≡ true
      → s.next_run_at ≡ some old
      → next_run cron s.cron_expression s.timezone now ≡ ok 0
      → let after =
          (materialize_one cron json tenant now new_id
            (record { schedule = s; next_run_at = old })
            t).0.schedules in
        (s' : Schedule) × (row (λ s''. s''.id) s.id after ≡ some s')
        × (is_due tenant later s' ≡ true)
  unfolding materialize_one advance
  never_firing_is_always_due t s old later here due at never = (
    advance_row 0 now s,
    rw (never, after_advance-schedules s t (advance s.id 0 old now t.schedules))
        (row-update-some (λ s'. s'.id) (is_at s.id old) (advance_row 0 now) (λ s'. refl) s.id
            t.schedules here
          ∙ rw (eq→== s.id s.id refl, at, eq→== old old refl)),
    ground arith,
  )
