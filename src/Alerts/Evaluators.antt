-- ===== src/Alerts/Evaluators.antt =====
-- evaluatorFor and evaluateKind of internal/controlplane/alerts/evaluate.go.
pub mod Verifications
pub mod Availability
pub mod Windows
pub mod Backlog
pub mod Verdicts
pub mod Kinds
pub mod Reclaimed
use text.Mathlib.Text.{◌==◌ as str_eq}
use Prim.Native.String.{◌++◌ as append}
use fleetward.Base.{
  ℕ, ◌+◌, ◌*◌, ◌/◌, ◌⊎◌, inl, inr, Bool, true, false, not, ◌&&◌, ◌||◌, List, [], ◌∷◌, ◌++◌, Option,
  none, some, String, ltb, ◌==◌, if◌then◌else◌, ℤ, pos, pos_part, holds, exists, where_rows, row,
}
use fleetward.Scheduler.Rows.{BackupState, VerificationState}
use fleetward.Backup.Retention.{Backup, is_expired}
use fleetward.Backup.Adherence.{AdherenceState}
use fleetward.Alerts.Vocabulary.{RuleKind}
use fleetward.Alerts.Rules.{Rule, Condition, load_enabled_rules, threshold_for}
use fleetward.Alerts.Estate.{
  InstanceRow, VerdictRow, AttemptRow, AdherenceAnswer, Texts, Estate, with_message,
}
use fleetward.Alerts.Evaluators.Verifications.{verification_failed}
use fleetward.Alerts.Evaluators.Availability.{instance_down, backup_failed}
use fleetward.Alerts.Evaluators.Windows.{backup_missing}
use fleetward.Alerts.Evaluators.Backlog.{retention_blocked}

abbrev pub no_evaluator : String
no_evaluator = "no evaluator for rule kind"

-- A query fails with the database's error.
abbrev pub or_failed : Option String → String ⊎ List Condition → String ⊎ List Condition
or_failed none found = found
or_failed (some failed) found = inl failed

module _ (texts : Texts) where
  unfoldable pub evaluator_for : ℕ → ℕ → Estate → RuleKind → String ⊎ List Condition
  evaluator_for tenant now e RuleKind.verification_failed = inr (verification_failed texts tenant e)
  evaluator_for tenant now e RuleKind.instance_down = inr (instance_down texts tenant e)
  evaluator_for tenant now e RuleKind.backup_failed = inr (backup_failed texts tenant e)
  evaluator_for tenant now e RuleKind.backup_missing = inr (backup_missing texts e.adherence)
  evaluator_for tenant now e RuleKind.retention_blocked = inr (retention_blocked texts tenant now e)
  evaluator_for tenant now e _ = inl no_evaluator

  unfoldable pub evaluate_kind :
      (RuleKind → Option String) → ℕ → ℕ → Estate → RuleKind → String ⊎ List Condition
  evaluate_kind query_error tenant now e k =
      or_failed (query_error k) (evaluator_for tenant now e k)
