-- ===== src/Scheduler/Cron/Every.antt =====
-- A concrete parser for the examples: the one expression that it knows besides "never" fires every
-- ten units of time.
use text.Mathlib.Text.{◌==◌ as str_eq}
use fleetward.Base.{ℕ, ◌+◌, ◌<◌, ◌≡◌, ◌⊎◌, none, some, arith, ◌==◌, if◌then◌else◌}
use fleetward.Scheduler.Cron.{Cron}

abbrev pub fires_after : ℕ → ℕ → ℕ
fires_after period t = if period == 0 then 0 else t + period

pub fires_after-later : (period t : ℕ) → (fires_after period t ≡ 0) ⊎ (t < fires_after period t)
fires_after-later period t = ground arith

abbrev pub every : Cron
every = record {
  Spec = ℕ;
  Location = Unit;
  parse_standard =
      λ e. if str_eq e "every 10" then some 10 else if str_eq e "never" then some 0 else none;
  load_location = λ name. if str_eq name "UTC" then some tt else none;
  utc = tt;
  next = λ period l t. fires_after period t;
  next_later = λ period l t. fires_after-later period t;
}
