-- ===== src/Backup/Adherence.antt =====
-- internal/controlplane/backup/adherence.go: did the backup that was expected happen, and what does
-- the answer rest on.
pub mod Occurrence
pub mod Settled
mod Examples
use text.Mathlib.Text.{◌==◌ as str_eq}
use Prim.Native.Char.{Char, code}
use Prim.Native.String.{◌++◌ as append, [] as empty, ◌∷◌ as char_cons}
use fleetward.Base.{
  ℕ, zero, suc, ◌+◌, ◌-◌, ◌*◌, ◌/◌, ◌%◌, ◌≤◌, ◌<◌, ◌≡◌, refl, sym, ap, subst, ◌∙◌, ◌≢◌, ◌↔◌, ◌⊎◌,
  inl, inr, Bool, true, false, not, ◌&&◌, ◌||◌, List, [], ◌∷◌, ◌++◌, map, Option, none, some,
  String, arith, ltb, leb, ◌==◌, if◌then◌else◌, eq→==, ==→eq, ne→==, ltb→lt, Bool-cases,
  Option-cases, ℤ, pos, negsuc, pos_part, neg_part, is_positive, holds, is_some, length, All,
  All-map, All-update, All-append, length-append, All-true, exists, where_rows, update, affected,
  update-All, update-none, row, row-update, row-none, row-keyed, row-key, row-update-some,
  row-update-none, row-update_ne, affected-row, affected-row-none, IsKeyed, IsKeyed-update, take,
  insert_on, sort_on, All-sort_on, All-take, All-where_rows,
}
use fleetward.Scheduler.Cron.{Cron}
use fleetward.Scheduler.Rows.{BackupState}

-- Durations and instants are in microseconds. An instant before the zero time is the zero time.
abbrev pub hour : ℕ
hour = 3600000000

abbrev pub minute : ℕ
minute = 60000000

abbrev pub dst_allowance : ℕ
dst_allowance = hour

abbrev pub adherence_search_limit : ℕ
adherence_search_limit = 9600 * hour

-- unicode.IsSpace.
abbrev pub is_space : ℕ → Bool
is_space c =
    (leb 9 c && leb c 13)
    || c == 32
    || c == 133
    || c == 160
    || c == 5760
    || (leb 8192 c && leb c 8202)
    || c == 8232
    || c == 8233
    || c == 8239
    || c == 8287
    || c == 12288

-- strings.TrimSpace(s) == "".
unfoldable pub is_blank : String → Bool
is_blank empty = true
is_blank (char_cons c s) = is_space (code c) && is_blank s

unfoldable pub or_utc : String → String
or_utc timezone = if is_blank timezone then "UTC" else timezone

-- The windows that the search tries, each four times the one before. A window below one hour is
-- never asked for, so the fuel is enough at eight.
unfoldable pub windows_from : ℕ → ℕ → List ℕ
windows_from zero window = []
windows_from (suc fuel) window =
    let rest = windows_from fuel (window * 4) in
    if leb window adherence_search_limit then window ∷ rest else []

-- What the search comes to. `running` is a search whose fuel has run out.
pub data Search : Type 0 where
  fired : ℕ → Search
  not_fired : Search
  running : Search

pub data Previous : Type 0 where
  found : Search → Previous
  bad_cron : String → Previous
  unknown_timezone : String → Previous

module _ (next : ℕ → ℕ) (at : ℕ) where
  -- The inner loop, from `last` on.
  unfoldable pub last_firing : ℕ → ℕ → Search
  last_firing zero last = running
  last_firing (suc fuel) last =
      let rest = last_firing fuel (next last) in if ltb at (next last) then fired last else rest

  unfoldable pub search : ℕ → List ℕ → Search
  search fuel [] = not_fired
  search fuel (window ∷ windows) =
      let wider = search fuel windows in
      if ltb at (next (at - window)) then wider else last_firing fuel (at - window)

module _ (cron : Cron) where
  open cron use {Spec, Location, parse_standard, load_location, next}

  abbrev pub search_in : ℕ → ℕ → Spec → Location → Search
  search_in fuel at spec loc = search (next spec loc) at fuel (windows_from 8 hour)

  abbrev pub previous_at : ℕ → String → ℕ → Spec → Option Location → Previous
  previous_at fuel timezone at spec none = unknown_timezone timezone
  previous_at fuel timezone at spec (some loc) = found (search_in fuel at spec loc)

  abbrev pub previous_of : ℕ → String → String → ℕ → Option Spec → Previous
  previous_of fuel expr timezone at none = bad_cron expr
  previous_of fuel expr timezone at (some spec) =
      previous_at fuel timezone at spec (load_location (or_utc timezone))

  unfoldable pub previous_run : ℕ → String → String → ℕ → Previous
  previous_run fuel expr timezone at = previous_of fuel expr timezone at (parse_standard expr)

pub record Evidence : Type 0 where
  pub source_description : String
  pub reports_outcome : Bool
  pub identity_is_engine_assigned : Bool
  pub completed_at_is_approximate : Bool

-- A backup as adherence reads it: one with a completion time.
pub record Candidate : Type 0 where
  pub id : ℕ
  pub state : BackupState
  pub completed_at : ℕ
  pub evidence : Option Evidence

-- `evaluateWindow`: the occurrence to judge, and its deadline.
pub record Window : Type 0 where
  pub expected_by : ℕ
  pub deadline : ℕ

abbrev pub window_of : ℕ → Search → Option Window
window_of grace (fired occurrence) =
    some (record { expected_by = occurrence; deadline = occurrence + grace })
window_of grace not_fired = none
window_of grace running = none

abbrev pub window_at : ℕ → Previous → Option Window
window_at grace (found s) = window_of grace s
window_at grace (bad_cron expr) = none
window_at grace (unknown_timezone timezone) = none

-- `none` is an error, and then nothing is judged.
unfoldable pub evaluate_window : Cron → ℕ → String → String → ℕ → ℕ → Option Window
evaluate_window cron fuel expr timezone grace_minutes now =
    let grace = grace_minutes * minute in
    window_at grace (previous_run cron fuel expr timezone (now - grace))

abbrev pub rank_of : BackupState → ℕ
rank_of BackupState.succeeded = 0
rank_of BackupState.unknown = 1
rank_of BackupState.failed = 2
rank_of _ = 3

abbrev pub is_approximate : Option Evidence → Bool
is_approximate none = false
is_approximate (some e) = e.completed_at_is_approximate

unfoldable pub in_window : Window → Candidate → Bool
in_window w b =
    if is_approximate b.evidence
    then leb (w.expected_by - dst_allowance) b.completed_at
      && leb b.completed_at (w.deadline + dst_allowance)
    else leb w.expected_by b.completed_at && leb b.completed_at w.deadline

pub data AdherenceState : Type 0 where
  not_declared missed adherent unproven failed : AdherenceState

abbrev pub is_better : Candidate → Option Candidate → Bool
is_better b none = true
is_better b (some s) = ltb (rank_of b.state) (rank_of s.state)

-- The loop of `decide`, with the backup that settles the window so far. Its rank is `best`.
unfoldable pub settle_from : Window → Option Candidate → List Candidate → Option Candidate
settle_from w satisfied [] = satisfied
settle_from w satisfied (b ∷ bs) =
    let kept = settle_from w satisfied bs in
    let replaced = settle_from w (some b) bs in
    if not (in_window w b) || ltb 2 (rank_of b.state)
    then kept
    else if is_better b satisfied
    then replaced
    else kept

abbrev pub state_of : Option Candidate → AdherenceState
state_of none = missed
state_of (some b) =
    if rank_of b.state == 0 then adherent else if rank_of b.state == 1 then unproven else failed

unfoldable pub decide : Window → List Candidate → Option Candidate × AdherenceState
decide w candidates =
    let satisfied = settle_from w none candidates in (satisfied, state_of satisfied)

abbrev pub when : Bool → String → List String
when true s = s ∷ []
when false s = []

abbrev pub source_of : Evidence → String
source_of e =
    if str_eq e.source_description "" then "the source this was read from" else e.source_description

unfoldable pub caveats_for : Option Evidence → List String
caveats_for none = []
caveats_for (some e) =
    when (not e.reports_outcome) (
      append (source_of e)
        " records that a backup arrived and cannot say whether it completed successfully")
    ++ when (not e.identity_is_engine_assigned) (
        append (source_of e)
          " assigns no identity of its own, so a backup that is moved or renamed appears as a new one")
    ++ when e.completed_at_is_approximate (
        append "the finish time from " (
          append (source_of e)
            " may be out by up to an hour across a daylight-saving change, so the window was widened by that much"))
