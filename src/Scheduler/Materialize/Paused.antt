-- ===== src/Scheduler/Materialize/Paused.antt =====
-- A paused schedule is never due, and one that is resumed is not due at once.
use fleetward.Base.{
  ℕ, ◌≡◌, sym, ap, subst, ◌∙◌, ◌⊎◌, inl, inr, Bool, true, false, ◌&&◌, List, [], ◌∷◌, Option, none,
  some, arith, ◌==◌, Bool-cases, Option-cases, All, update, affected, row, row-key,
}
use fleetward.Scheduler.Cron.{Cron, next_run, next_run_later}
use fleetward.Scheduler.Schedules.{
  Schedule, accept, ◌>>=◌, bad_schedule, checked, is_schedule_of, owned_by, get_schedule, resume_at,
  set_enabled, set_schedule_enabled,
}
use fleetward.Scheduler.Schedules.Validity.{
  Outcome-cases, checked-accept, accept-injective, refuse-ne-accept,
}
use fleetward.Scheduler.Materialize.{has_come, is_due}

module _ (cron : Cron) (id tenant now : ℕ) (rows : List Schedule) where
  get_schedule-id : {s : Schedule} → get_schedule cron id tenant rows ≡ accept s → s.id ≡ id
  unfolding get_schedule
  get_schedule-id {s} h = elim (Option-cases (row (λ s. s.id) id rows)) [
    | inl missing ↦ absurd (refuse-ne-accept (rw missing at h))
    | inr (t, here) ↦ of_owner t (row-key (λ s. s.id) id rows here) (rw here at h)
  ]
    where
      of_owner :
          (t : Schedule) → t.id ≡ id → owned_by cron id tenant (some t) ≡ accept s → s.id ≡ id
      of_owner t e k = elim (Bool-cases (t.tenant_id == tenant)) [
        | inl mine ↦ sym (ap (λ x. x.id) (accept-injective (rw mine at k))) ∙ e
        | inr other ↦ absurd (refuse-ne-accept (rw other at k))
      ]

  -- What an accepted change makes of the table.
  set_schedule_enabled-rows :
      (enabled : Bool) {after : List Schedule}
      → set_schedule_enabled cron id tenant enabled now rows ≡ accept after
      → (current : Schedule) × (next : Option ℕ) × (resume_at cron enabled current now
          ≡ accept next)
        × (after ≡ update (is_schedule_of cron id tenant) (set_enabled cron enabled next now) rows)
  unfolding set_schedule_enabled
  set_schedule_enabled-rows enabled {after} h =
      elim (Outcome-cases (get_schedule cron id tenant rows)) [
        | inr (r, refused) ↦ absurd (refuse-ne-accept (rw (refused, ◌>>=◌) at h))
        | inl (current, got) ↦
            let h1 = rw (got, ◌>>=◌) at h in
            elim (Outcome-cases (resume_at cron enabled current now)) [
              | inr (r, refused) ↦ absurd (refuse-ne-accept (rw (refused, ◌>>=◌) at h1))
              | inl (next, planned) ↦
                  let h2 = rw (planned, ◌>>=◌) at h1 in
                  elim (Bool-cases (affected (is_schedule_of cron current.id tenant) rows == 0)) [
                    | inl none_left ↦ absurd (refuse-ne-accept (rw none_left at h2))
                    | inr found ↦ (
                      current,
                      next,
                      planned,
                      sym (accept-injective (rw found at h2))
                          ∙ ap
                              (λ i.
                                update (is_schedule_of cron i tenant)
                                  (set_enabled cron enabled next now) rows)
                              (get_schedule-id got),
                    )
                  ]
            ]
      ]

  -- What is changed has the new next run, and what has this id and is not changed is another tenant's.
  changed {κ} :
      (Q : Schedule → Type κ) (enabled : Bool) (next : Option ℕ)
      → ((s : Schedule) → Q (set_enabled cron enabled next now s))
      → ((s : Schedule) → is_schedule_of cron id tenant s ≡ false → Q s)
      → (ss : List Schedule)
      → All Q (update (is_schedule_of cron id tenant) (set_enabled cron enabled next now) ss)
  unfolding update
  changed Q enabled next new old [] = tt
  changed Q enabled next new old (s ∷ ss) = elim (Bool-cases (is_schedule_of cron id tenant s)) [
    | inl mine ↦ rw mine (new s, changed Q enabled next new old ss)
    | inr other ↦ rw other (old s other, changed Q enabled next new old ss)
  ]

  -- Once a schedule is paused no tick finds it due, at any later instant.
  pub paused_is_never_due :
      (later : ℕ) {after : List Schedule}
      → set_schedule_enabled cron id tenant false now rows ≡ accept after
      → All (λ s. (s.id == id && is_due tenant later s) ≡ false) after
  paused_is_never_due later h =
      let (current, next, planned, e) = set_schedule_enabled-rows false h in
      let no_next : next ≡ none = sym (accept-injective planned) in
      subst (All (λ s. (s.id == id && is_due tenant later s) ≡ false)) (sym e) (
        changed (λ s. (s.id == id && is_due tenant later s) ≡ false) false next (λ s. ground arith)
          (λ s other. ground arith) rows)

  -- A schedule that is resumed, however long it was paused, is not due at that instant, unless its
  -- next run is the zero time.
  pub resumed_is_not_due :
      {after : List Schedule}
      → set_schedule_enabled cron id tenant true now rows ≡ accept after
      → All (λ s. ((s.id == id && is_due tenant now s) ≡ false) ⊎ (s.next_run_at ≡ some 0)) after
  resumed_is_not_due h =
      let (current, next, planned, e) = set_schedule_enabled-rows true h in
      subst (All (λ s. ((s.id == id && is_due tenant now s) ≡ false) ⊎ (s.next_run_at ≡ some 0)))
        (sym e)
        (elim (Outcome-cases
          (checked bad_schedule (next_run cron current.cron_expression current.timezone now))) [
            | inr (r, refused) ↦ absurd (refuse-ne-accept (rw (refused, ◌>>=◌) at planned))
            | inl (n, computed) ↦
                let is_next : some n ≡ next = accept-injective (rw (computed, ◌>>=◌) at planned) in
                let later =
                  next_run_later cron current.cron_expression current.timezone now n
                    (checked-accept bad_schedule _ computed) in
                changed
                  (λ s. ((s.id == id && is_due tenant now s) ≡ false) ⊎ (s.next_run_at ≡ some 0))
                  true next
                  (λ s. elim later [
                    | inl zeroth ↦ inr (sym is_next ∙ ap some zeroth)
                    | inr future ↦ inl (
                        subst
                          (λ o.
                            (s.id == id && (s.tenant_id == tenant && true && has_come o now))
                            ≡ false)
                          is_next (ground arith))
                  ])
                  (λ s other. inl (ground arith)) rows
          ])
