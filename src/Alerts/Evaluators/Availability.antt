-- ===== src/Alerts/Evaluators/Availability.antt =====
-- instanceDown and backupFailed: servers that stopped answering, and last attempts that failed.
use text.Mathlib.Text.{◌==◌ as str_eq}
use Prim.Native.String.{◌++◌ as append}
use fleetward.Base.{
  ℕ, Bool, true, false, ◌&&◌, List, [], ◌∷◌, ◌++◌, Option, none, some, String, ltb, ◌==◌,
  if◌then◌else◌,
}
use fleetward.Scheduler.Rows.{BackupState}
use fleetward.Alerts.Vocabulary.{RuleKind}
use fleetward.Alerts.Rules.{Condition}
use fleetward.Alerts.Estate.{InstanceRow, AttemptRow, Texts, Estate, with_message}

abbrev pub is_down : ℕ → InstanceRow → Bool
is_down tenant i = i.tenant_id == tenant && i.is_active && str_eq i.health "HEALTH_STATE_DOWN"

abbrev pub is_outcome : BackupState → Bool
is_outcome BackupState.succeeded = true
is_outcome BackupState.failed = true
is_outcome _ = false

abbrev pub is_failed : BackupState → Bool
is_failed BackupState.failed = true
is_failed _ = false

-- ORDER BY started_at DESC, where NULL comes first.
abbrev pub starts_later : Option ℕ → Option ℕ → Bool
starts_later none t = true
starts_later (some s) none = false
starts_later (some s) (some t) = ltb t s

abbrev pub later_attempt : AttemptRow → Option AttemptRow → Option AttemptRow
later_attempt b none = some b
later_attempt b (some c) = if starts_later b.started_at c.started_at then some b else some c

-- DISTINCT ON (instance_id): the first row of an instance in that order.
unfoldable pub last_attempt : ℕ → ℕ → List AttemptRow → Option AttemptRow
last_attempt tenant instance_id [] = none
last_attempt tenant instance_id (b ∷ bs) =
    let rest = last_attempt tenant instance_id bs in
    if b.tenant_id == tenant && b.instance_id == instance_id && is_outcome b.state
    then later_attempt b rest
    else rest

module _ (texts : Texts) where
  open texts use {rfc3339}

  abbrev pub with_last_seen : Option ℕ → String → String
  with_last_seen none detail = detail
  with_last_seen (some t) detail =
      append detail (append " It was last reachable " (append (rfc3339 t) "."))

  abbrev pub down_condition : InstanceRow → Condition
  down_condition i = record {
    kind = RuleKind.instance_down;
    fingerprint = record { kind = RuleKind.instance_down; subject = some i.id };
    instance_id = some i.id;
    instance_name = i.name;
    environment_id = some i.environment_id;
    summary = append i.name " is not answering";
    detail = with_last_seen i.last_seen_at (
        with_message " " i.health_message (append i.name " did not answer its last health probe."));
  }

  unfoldable pub instances_down : ℕ → List InstanceRow → List Condition
  instances_down tenant [] = []
  instances_down tenant (i ∷ is) =
      let rest = instances_down tenant is in
      if is_down tenant i then down_condition i ∷ rest else rest

  abbrev pub instance_down : ℕ → Estate → List Condition
  instance_down tenant e = instances_down tenant e.instances

  abbrev pub with_start : Option ℕ → String → String
  with_start none detail = detail
  with_start (some t) detail =
      append detail (append " The attempt started " (append (rfc3339 t) "."))

  abbrev pub failed_condition : InstanceRow → AttemptRow → Condition
  failed_condition i b = record {
    kind = RuleKind.backup_failed;
    fingerprint = record { kind = RuleKind.backup_failed; subject = some i.id };
    instance_id = some i.id;
    instance_name = i.name;
    environment_id = some i.environment_id;
    summary = append "The last backup of " (append i.name " failed");
    detail = with_start b.started_at (
        with_message " It reported: " b.error_message
          (append "The most recent backup attempt on " (append i.name " failed.")));
  }

  abbrev pub attempt_condition : InstanceRow → Option AttemptRow → List Condition
  attempt_condition i none = []
  attempt_condition i (some b) = if is_failed b.state then failed_condition i b ∷ [] else []

  unfoldable pub attempts_failed : ℕ → List AttemptRow → List InstanceRow → List Condition
  attempts_failed tenant attempts [] = []
  attempts_failed tenant attempts (i ∷ is) =
      let rest = attempts_failed tenant attempts is in
      if i.is_active then attempt_condition i (last_attempt tenant i.id attempts) ++ rest else rest

  abbrev pub backup_failed : ℕ → Estate → List Condition
  backup_failed tenant e = attempts_failed tenant e.attempts e.instances
