-- ===== src/Alerts/Evaluators/Reclaimed.antt =====
-- What retentionBlocked makes of an artifact that the sweep has deleted.
use fleetward.Base.{
  ℕ, ◌+◌, ◌<◌, ◌≡◌, refl, inl, inr, true, false, List, [], ◌∷◌, ◌++◌, Option, none, some, arith,
  ◌==◌, Bool-cases, ℤ, is_some,
}
use fleetward.Backup.Retention.{Backup}
use fleetward.Backup.Retention.Sweep.{is_pending_artifact, mark}
use fleetward.Alerts.Rules.{Condition}
use fleetward.Alerts.Estate.{Texts, Estate}
use fleetward.Alerts.Evaluators.Backlog.{
  allowance, is_stuck, Backlog, backlog_of, blocked_condition, blocked, allowed_hours,
  retention_blocked,
}

module _ (texts : Texts) (tenant now : ℕ) where
  module _ (hours : ℤ) where
    -- A backlog that has something in it.
    abbrev IsBacklog : Backlog → Type 0
    IsBacklog b = (0 < b.stuck) × (is_some b.oldest ≡ true)

    backlog_of-IsBacklog :
        (before : List Backup) (b : Backup) (later : List Backup)
        → is_stuck tenant now hours b ≡ true
        → IsBacklog (backlog_of tenant now hours (before ++ b ∷ later))
    unfolding backlog_of
    backlog_of-IsBacklog [] b later stuck = rw stuck (omega arith, refl)
    backlog_of-IsBacklog (a ∷ before) b later stuck =
        elim (Bool-cases (is_stuck tenant now hours a)) [
          | inl too ↦ rw too (omega arith, refl)
          | inr not_it ↦ rw not_it (backlog_of-IsBacklog before b later stuck)
        ]

    blocked-one :
        (b : Backlog) (oldest : Option ℕ)
        → 0 < b.stuck
        → is_some oldest ≡ true
        → (c : Condition) × (blocked texts hours b oldest ≡ c ∷ [])
    blocked-one b none stuck some' = absurd (cc)
    blocked-one b (some t) stuck some' =
        let counted : (b.stuck == 0) ≡ false = ground arith in
        (blocked_condition texts hours t b, rw counted)

    marked_is_stuck :
        (at : ℕ) (b : Backup)
        → is_pending_artifact tenant b ≡ true
        → at + allowance hours < now
        → is_stuck tenant now hours (mark at b) ≡ true
    unfolding is_stuck
    marked_is_stuck at b pending late = ground arith

  -- An expired backup whose object the sweep deleted, and whose row it marked, counts as one that the
  -- object store could not delete: once the mark is older than the hours that are allowed, every
  -- evaluation of retention_blocked finds its condition, whatever else is in the tables. The query
  -- asks for a row that is expired with an object key, and a mark clears no key.
  pub reclaimed_still_blocks :
      (e : Estate) (before : List Backup) (b : Backup) (later : List Backup) (at : ℕ)
      → is_pending_artifact tenant b ≡ true
      → e.backups ≡ before ++ mark at b ∷ later
      → at + allowance (allowed_hours tenant e.rules) < now
      → (c : Condition) × (retention_blocked texts tenant now e ≡ c ∷ [])
  unfolding retention_blocked
  reclaimed_still_blocks e before b later at pending rows late =
      let hours = allowed_hours tenant e.rules in
      let found : IsBacklog hours (backlog_of tenant now hours e.backups) = rw rows (
        backlog_of-IsBacklog hours before (mark at b) later
          (marked_is_stuck hours at b pending late)) in
      blocked-one hours (backlog_of tenant now hours e.backups)
        (backlog_of tenant now hours e.backups).oldest found.0 found.1
