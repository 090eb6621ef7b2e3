-- ===== src/Scheduler/Cron.antt =====
-- internal/controlplane/scheduler/cron.go. The parser, the time zone database and the walk of local
-- time are github.com/robfig/cron and Go's time package, a parameter.
pub mod Every
use text.Mathlib.Text.{◌==◌ as str_eq}
use fleetward.Base.{
  ℕ, zero, suc, ◌+◌, ◌-◌, ◌*◌, ◌≤◌, ◌<◌, ◌≡◌, refl, sym, ap, subst, ◌∙◌, ◌≢◌, ◌↔◌, ◌⊎◌, inl, inr,
  Bool, true, false, not, ◌&&◌, ◌||◌, List, [], ◌∷◌, ◌++◌, map, Option, none, some, String, arith,
  ltb, leb, ◌==◌, if◌then◌else◌, eq→==, ==→eq, ne→==, ltb→lt, Bool-cases, Option-cases, ℤ, pos,
  negsuc, pos_part, neg_part, is_positive, holds, is_some, length, All, All-map, All-update,
  All-true, exists, where_rows, update, affected, update-All, update-none, row, row-update,
  row-none, row-keyed, row-key, row-update-some, row-update-none, row-update_ne, IsKeyed,
  IsKeyed-update,
}

-- An instant is a count of microseconds since Go's zero time, which is 0. `next` is
-- `Schedule.Next` at a location: by its documentation a time later than the one it is given, or the
-- zero time where it finds none within five years.
pub record Cron : Type 1 where
  pub Spec : Type 0
  pub Location : Type 0
  pub parse_standard : String → Option Spec
  pub load_location : String → Option Location
  pub utc : Location
  pub next : Spec → Location → ℕ → ℕ
  pub next_later : (s : Spec) (l : Location) (t : ℕ) → (next s l t ≡ 0) ⊎ (t < next s l t)

pub data CronError : Type 0 where
  cron_required : CronError
  bad_cron : String → CronError
  unknown_timezone : String → CronError

pub data Checked {ℓ} (A : Type ℓ) : Type ℓ where
  ok : A → Checked A
  err : CronError → Checked A

infixl 5 ◌>>=◌
abbrev pub ◌>>=◌ {ℓ κ} : {A : Type ℓ} {B : Type κ} → Checked A → (A → Checked B) → Checked B
ok a >>= f = f a
err e >>= f = err e

abbrev pub or_error {ℓ} : {A : Type ℓ} → Option A → CronError → Checked A
or_error none e = err e
or_error (some a) e = ok a

module _ (cron : Cron) where
  open cron use {Spec, Location, parse_standard, load_location, utc, next}

  unfoldable pub parse_cron : String → Checked Spec
  parse_cron expr =
      if str_eq expr "" then err cron_required else or_error (parse_standard expr) (bad_cron expr)

  unfoldable pub location_of : String → Checked Location
  location_of name =
      if str_eq name "" then ok utc else or_error (load_location name) (unknown_timezone name)

  -- In the schedule's own location, then read as UTC: an instant is the same in both.
  unfoldable pub next_run : String → String → ℕ → Checked ℕ
  next_run expr timezone after = do
    spec ← parse_cron expr
    loc ← location_of timezone
    ok (next spec loc after)

  -- A next run is later than the instant asked about, or it is the zero time.
  pub next_run_later :
      (expr timezone : String) (after n : ℕ)
      → next_run expr timezone after ≡ ok n
      → (n ≡ 0) ⊎ (after < n)
  unfolding next_run
  next_run_later expr timezone after n e = with_spec (parse_cron expr) e
    where
      with_location :
          (s : Spec) (l : Checked Location)
          → (l >>= λ loc. ok (next s loc after)) ≡ ok n
          → (n ≡ 0) ⊎ (after < n)
      with_location s (ok loc) h = ground (arith, cron.next_later s loc after)
      with_location s (err x) h = cc

      with_spec :
          (s : Checked Spec)
          → (s >>= λ spec. location_of timezone >>= λ loc. ok (next spec loc after)) ≡ ok n
          → (n ≡ 0) ⊎ (after < n)
      with_spec (ok s) h = with_location s (location_of timezone) h
      with_spec (err x) h = cc
