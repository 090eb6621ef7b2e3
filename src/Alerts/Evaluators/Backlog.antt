-- ===== src/Alerts/Evaluators/Backlog.antt =====
-- retentionBlocked: artifacts that the object store has not let go of.
use text.Mathlib.Text.{◌==◌ as str_eq}
use Prim.Native.String.{◌++◌ as append}
use fleetward.Base.{
  ℕ, ◌+◌, ◌*◌, ◌/◌, Bool, not, ◌&&◌, List, [], ◌∷◌, Option, none, some, ltb, ◌==◌, if◌then◌else◌, ℤ,
  pos, pos_part,
}
use fleetward.Backup.Retention.{Backup, is_expired}
use fleetward.Alerts.Vocabulary.{RuleKind}
use fleetward.Alerts.Rules.{Rule, Condition, load_enabled_rules, threshold_for}
use fleetward.Alerts.Estate.{Texts, Estate}

-- Whole hours, as make_interval takes them, in microseconds.
abbrev pub allowance : ℤ → ℕ
allowance t = pos_part t / 1000 * 3600000000

unfoldable pub is_stuck : ℕ → ℕ → ℤ → Backup → Bool
is_stuck tenant now hours b =
    b.tenant_id == tenant
    && is_expired b.state
    && not (str_eq b.object_key "")
    && ltb (b.updated_at + allowance hours) now

-- COUNT(*), MIN(updated_at) and SUM(size_bytes).
pub record Backlog : Type 0 where
  pub stuck : ℕ
  pub oldest : Option ℕ
  pub bytes : ℕ

abbrev pub older : ℕ → Option ℕ → ℕ
older t none = t
older t (some u) = if ltb u t then u else t

unfoldable pub backlog_of : ℕ → ℕ → ℤ → List Backup → Backlog
backlog_of tenant now hours [] = record { stuck = 0; oldest = none; bytes = 0 }
backlog_of tenant now hours (b ∷ bs) =
    let rest = backlog_of tenant now hours bs in
    if is_stuck tenant now hours b
    then record {
      stuck = rest.stuck + 1;
      oldest = some (older b.updated_at rest.oldest);
      bytes = rest.bytes + b.size_bytes;
    }
    else rest

-- Six hours, unless an enabled rule says otherwise.
abbrev pub allowed_hours : ℕ → List Rule → ℤ
allowed_hours tenant rules =
    threshold_for (load_enabled_rules tenant rules) RuleKind.retention_blocked (pos 6000)

module _ (texts : Texts) where
  open texts use {rfc3339, decimal, hours}

  abbrev pub blocked_condition : ℤ → ℕ → Backlog → Condition
  blocked_condition t oldest b = record {
    kind = RuleKind.retention_blocked;
    fingerprint = record { kind = RuleKind.retention_blocked; subject = none };
    instance_id = none;
    instance_name = "";
    environment_id = none;
    summary = append (decimal b.stuck) " expired backup artifacts could not be deleted";
    detail = append "The retention sweep has been unable to remove " (
        append (decimal b.stuck) (
          append " artifacts totalling " (
            append (decimal b.bytes) (
              append " bytes. The oldest has been queued since " (
                append (rfc3339 oldest) (
                  append ", which is longer than the " (
                    append (hours t)
                      " hours this rule allows. Nothing has been lost — the rows are intact and each sweep tries again — but storage is not being reclaimed, so the object store is worth looking at.")))))));
  }

  abbrev pub blocked : ℤ → Backlog → Option ℕ → List Condition
  blocked t b none = []
  blocked t b (some oldest) = if b.stuck == 0 then [] else blocked_condition t oldest b ∷ []

  unfoldable pub retention_blocked : ℕ → ℕ → Estate → List Condition
  retention_blocked tenant now e =
      let t = allowed_hours tenant e.rules in
      let b = backlog_of tenant now t e.backups in blocked t b b.oldest
