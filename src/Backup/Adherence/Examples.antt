-- ===== src/Backup/Adherence/Examples.antt =====
-- The theorems on adherence, each applied to a small case.
use text.Mathlib.Text.{◌==◌ as str_eq}
use fleetward.Base.{
  ℕ, suc, ◌+◌, ◌-◌, ◌*◌, ◌/◌, ◌<◌, ◌≡◌, refl, ◌⊎◌, List, [], ◌∷◌, none, some, arith, ltb, ◌==◌,
  if◌then◌else◌,
}
use fleetward.Scheduler.Rows.{BackupState}
use fleetward.Scheduler.Cron.{Cron}
use fleetward.Backup.Adherence.{
  hour, minute, not_fired, running, search_in, Window, Candidate, evaluate_window,
}
use fleetward.Backup.Adherence.Occurrence.{
  Ends, search_in-Ends, fired_half_a_year_ago, never_firing_never_ends, IsJudged,
  evaluate_window-IsJudged,
}

-- An expression by its number: 10 fires every ten microseconds, 0 never, and any other once in all.
abbrev pub next_firing : ℕ → ℕ → ℕ
next_firing period t =
    if period == 10
    then (t / 10 + 1) * 10
    else if period == 0
    then 0
    else if ltb t period
    then period
    else t + 1

pub ten_later : (t : ℕ) → t < (t / 10 + 1) * 10
ten_later t = omega arith

pub next_firing-later : (period t : ℕ) → (next_firing period t ≡ 0) ⊎ (t < next_firing period t)
next_firing-later period t = ground (arith, ten_later t)

abbrev periodic : Cron
periodic = record {
  Spec = ℕ;
  Location = Unit;
  parse_standard = λ e. if str_eq e "often" then some 10 else none;
  load_location = λ name. some tt;
  utc = tt;
  next = λ period l t. next_firing period t;
  next_later = λ period l t. next_firing-later period t;
}

search_in-Ends_example : Ends (periodic.next 10 tt) 1234 (search_in periodic 1235 1234 10 tt)
search_in-Ends_example = search_in-Ends periodic 10 tt 1234 (λ t. ten_later t)

-- The spec that first fires at 5000 hours, asked about at 4999 hours.
fired_half_a_year_ago_example : search_in periodic 9 (4999 * hour) (5000 * hour) tt ≡ not_fired
fired_half_a_year_ago_example =
    fired_half_a_year_ago periodic (5000 * hour) tt 9 (4999 * hour) (λ t near. ground arith)

never_firing_never_ends_example : search_in periodic 100 1234 0 tt ≡ running
never_firing_never_ends_example = never_firing_never_ends periodic 0 tt 100 1234 (λ t. refl)

evaluate_window-IsJudged_example :
    IsJudged
      (periodic.next 10 tt)
      minute
      (2 * minute)
      (evaluate_window periodic (suc (2 * minute - 1 * minute)) "often" "" 1 (2 * minute))
evaluate_window-IsJudged_example =
    evaluate_window-IsJudged periodic "often" "" 1 (2 * minute) 10 tt refl refl (λ t. ten_later t)
      (omega arith)

abbrev seen : ℕ → BackupState → ℕ → Candidate
seen id state at = record { id = id; state = state; completed_at = at; evidence = none }

abbrev nightly : Window
nightly = record { expected_by = 100; deadline = 220 }

abbrev retried : List Candidate
retried = seen 2 BackupState.succeeded 150 ∷ seen 1 BackupState.failed 120 ∷ []
