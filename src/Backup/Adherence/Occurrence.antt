-- ===== src/Backup/Adherence/Occurrence.antt =====
-- The search for the last firing of an expression.
use fleetward.Base.{
  ℕ, zero, suc, ◌+◌, ◌-◌, ◌*◌, ◌≤◌, ◌<◌, ◌≡◌, refl, subst, ◌⊎◌, inl, inr, true, false, List, [],
  ◌∷◌, Option, none, some, String, arith, ltb, ◌==◌, ==→eq, ltb→lt, Bool-cases, All, exists,
}
use fleetward.Scheduler.Cron.{Cron}
use fleetward.Backup.Adherence.{
  hour, minute, windows_from, Search, fired, not_fired, running, last_firing, search, search_in,
  Window, window_of, or_utc, evaluate_window, previous_run,
}

-- The firing is one of the expression's, it is not after `at`, and the next one is.
abbrev pub IsLast : (ℕ → ℕ) → ℕ → ℕ → Type 0
IsLast next at r = (r ≤ at) × (at < next r) × ((c : ℕ) × (r ≡ next c))

-- What the search ends in: the last firing, or the answer that the widest window has none.
abbrev pub Ends : (ℕ → ℕ) → ℕ → Search → Type 0
Ends next at (fired r) = IsLast next at r
Ends next at not_fired = at < next (at - 4096 * hour)
Ends next at running = ⊥

module _ (next : ℕ → ℕ) (at : ℕ) where
  -- Each step comes closer to `at`, so a step for each instant up to it is enough.
  last_firing-Ends :
      (later : (t : ℕ) → t < next t) (fuel c : ℕ)
      → next c ≤ at
      → at < fuel + next c
      → Ends next at (last_firing next at fuel (next c))
  unfolding last_firing
  last_firing-Ends later zero c h enough = absurd (omega arith)
  last_firing-Ends later (suc fuel) c h enough = elim (Bool-cases (ltb at (next (next c)))) [
    | inl past ↦ rw past (h, ground arith, (c, refl))
    | inr before ↦
        rw before
          (last_firing-Ends later fuel (next c) (ground arith) (omega (arith, later (next c))))
  ]

  first_step :
      (later : (t : ℕ) → t < next t) (fuel cursor : ℕ)
      → ltb at (next cursor) ≡ false
      → at < fuel
      → Ends next at (last_firing next at fuel cursor)
  unfolding last_firing
  first_step later zero cursor h enough = absurd (omega arith)
  first_step later (suc fuel) cursor h enough =
      rw h (last_firing-Ends later fuel cursor (ground arith) (omega (arith, later cursor)))

  search-Ends :
      (later : (t : ℕ) → t < next t) (fuel widest : ℕ) (windows : List ℕ)
      → at < fuel
      → (at < next (at - widest)) ⊎ (exists (λ w. w == widest) windows ≡ true)
      → (at < next (at - widest) → Ends next at not_fired)
      → Ends next at (search next at fuel windows)
  unfolding search
  search-Ends later fuel widest [] enough (inl none_fires) e = e none_fires
  search-Ends later fuel widest [] enough (inr h) e = absurd (cc)
  search-Ends later fuel widest (w ∷ ws) enough known e =
      elim (Bool-cases (ltb at (next (at - w)))) [
        | inl nothing ↦ rw nothing (
            search-Ends later fuel widest ws enough
              (elim known [
                | inl k ↦ inl k
                | inr k ↦ elim (Bool-cases (w == widest)) [
                  | inl same ↦ inl (
                      subst (λ x. at < next (at - x)) (==→eq w widest same)
                        (ltb→lt at (next (at - w)) nothing))
                  | inr other ↦ inr (rw other at k)
                ]
              ])
              e)
        | inr something ↦ rw something (first_step later fuel (at - w) something enough)
      ]

  not_fired-here :
      (fuel : ℕ) (windows : List ℕ)
      → All (λ w. ltb at (next (at - w)) ≡ true) windows
      → search next at fuel windows ≡ not_fired
  unfolding search
  not_fired-here fuel [] all = refl
  not_fired-here fuel (w ∷ ws) all = rw all.0 (not_fired-here fuel ws all.1)

  always_zero : ((t : ℕ) → next t ≡ 0) → (fuel last : ℕ) → last_firing next at fuel last ≡ running
  unfolding last_firing
  always_zero zeroth zero last = refl
  always_zero zeroth (suc fuel) last =
      let before : ltb at (next last) ≡ false = ground (arith, zeroth last) in
      rw before (always_zero zeroth fuel (next last))

module _ (cron : Cron) (spec : cron.Spec) (loc : cron.Location) where
  -- Where an expression always fires again, the search ends, and in as many steps as there are
  -- instants up to `at` at the most: with the last firing at or before `at`, or, where nothing fires
  -- between 4096 hours before it and itself, with the answer that there is none.
  pub search_in-Ends :
      (at : ℕ)
      → ((t : ℕ) → t < cron.next spec loc t)
      → Ends (cron.next spec loc) at (search_in cron (suc at) at spec loc)
  unfolding windows_from
  search_in-Ends at later =
      search-Ends (cron.next spec loc) at later (suc at) (4096 * hour) (windows_from 8 hour)
        (omega arith) (inr refl) (λ h. h)

  -- An expression that fires nowhere in the last 4096 hours is answered as one that has not
  -- fired, whatever the fuel and whatever fired before that, within 400 days or not.
  pub fired_half_a_year_ago :
      (fuel at : ℕ)
      → ((t : ℕ) → at ≤ t + 4096 * hour → at < cron.next spec loc t)
      → search_in cron fuel at spec loc ≡ not_fired
  unfolding windows_from
  fired_half_a_year_ago fuel at silent =
      not_fired-here (cron.next spec loc) at fuel (windows_from 8 hour) (
        within hour (omega arith),
        (
          within (4 * hour) (omega arith),
          (
            within (16 * hour) (omega arith),
            (
              within (64 * hour) (omega arith),
              (
                within (256 * hour) (omega arith),
                (within (1024 * hour) (omega arith), (within (4096 * hour) (omega arith), tt)),
              ),
            ),
          ),
        ),
      )
    where
      within : (w : ℕ) → w ≤ 4096 * hour → ltb at (cron.next spec loc (at - w)) ≡ true
      within w h = let past = silent (at - w) (omega arith) in ground arith

  -- An expression that never fires, so that its next firing is always the zero time, is searched
  -- for ever: however much fuel it is given, the search is still running.
  pub never_firing_never_ends :
      (fuel at : ℕ)
      → ((t : ℕ) → cron.next spec loc t ≡ 0)
      → search_in cron fuel at spec loc ≡ running
  unfolding windows_from search
  never_firing_never_ends fuel at zeroth =
      let before : ltb at (cron.next spec loc (at - hour)) ≡ false =
        ground (arith, zeroth (at - hour)) in
      rw before (always_zero (cron.next spec loc) at zeroth fuel (at - hour))

-- A window ends at a firing, and is judged only once its grace has run out, and until that of the
-- next one has.
abbrev pub IsJudged : (ℕ → ℕ) → ℕ → ℕ → Option Window → Type 0
IsJudged next grace now none = now - grace < next (now - grace - 4096 * hour)
IsJudged next grace now (some w) =
    (w.deadline ≡ w.expected_by + grace)
    × (w.deadline ≤ now)
    × (now < next w.expected_by + grace)
    × ((c : ℕ) × (w.expected_by ≡ next c))

Ends-IsJudged :
    (next : ℕ → ℕ) (grace now : ℕ) (s : Search)
    → grace ≤ now
    → Ends next (now - grace) s
    → IsJudged next grace now (window_of grace s)
Ends-IsJudged next grace now (fired r) past e = (refl, omega (arith, e.0), omega (arith, e.1), e.2)
Ends-IsJudged next grace now not_fired past e = e
Ends-IsJudged next grace now running past e = absurd e

-- For an expression that always fires again, in a known time zone: the window that is judged is that
-- of a firing, the latest one whose grace has run out by now, so none is judged while its backup may still come, and
-- there is none only if nothing fired in the 4096 hours before.
pub evaluate_window-IsJudged :
    (cron : Cron) (expr timezone : String) (grace_minutes now : ℕ) (spec : cron.Spec)
    (loc : cron.Location)
    → cron.parse_standard expr ≡ some spec
    → cron.load_location (or_utc timezone) ≡ some loc
    → ((t : ℕ) → t < cron.next spec loc t)
    → grace_minutes * minute ≤ now
    → IsJudged
        (cron.next spec loc)
        (grace_minutes * minute)
        now
        (evaluate_window cron (suc (now - grace_minutes * minute)) expr timezone grace_minutes now)
unfolding evaluate_window previous_run
evaluate_window-IsJudged cron expr timezone grace_minutes now spec loc parsed located later past =
    let grace = grace_minutes * minute in
    rw parsed (
      rw located (
        Ends-IsJudged (cron.next spec loc) grace now
          (search_in cron (suc (now - grace)) (now - grace) spec loc) past
          (search_in-Ends cron spec loc (now - grace) later)))
