-- ===== src/Alerts/Evaluators/Windows.antt =====
-- backupMissing: windows that closed empty.
use Prim.Native.String.{◌++◌ as append}
use fleetward.Base.{ℕ, Bool, true, false, List, [], ◌∷◌, Option, none, some, String, if◌then◌else◌}
use fleetward.Backup.Adherence.{AdherenceState}
use fleetward.Alerts.Vocabulary.{RuleKind}
use fleetward.Alerts.Rules.{Condition}
use fleetward.Alerts.Estate.{AdherenceAnswer, Texts}

-- strings.Join(caveats, "; ").
abbrev pub joined : List String → String
joined [] = ""
joined (s ∷ []) = s
joined (s ∷ t ∷ ts) = append s (append "; " (joined (t ∷ ts)))

abbrev pub is_missed : AdherenceState → Bool
is_missed AdherenceState.missed = true
is_missed _ = false

module _ (texts : Texts) where
  open texts use {rfc3339}

  abbrev pub latest_sentence : Option ℕ → String
  latest_sentence none = " There is no record of any backup of this instance."
  latest_sentence (some t) =
      append " The most recent backup of any kind was " (append (rfc3339 t) ".")

  abbrev pub with_caveats : List String → String → String
  with_caveats [] detail = detail
  with_caveats (c ∷ cs) detail =
      append detail (append " What weakens this answer: " (append (joined (c ∷ cs)) "."))

  abbrev pub missing_condition : AdherenceAnswer → Condition
  missing_condition a = record {
    kind = RuleKind.backup_missing;
    fingerprint = record { kind = RuleKind.backup_missing; subject = some a.instance_id };
    instance_id = some a.instance_id;
    instance_name = a.instance_name;
    environment_id = some a.environment_id;
    summary = append "A backup window closed with nothing in it on " a.instance_name;
    detail = with_caveats a.caveats (
        append
          (append "A backup of " (
            append a.instance_name
              (append " was expected by " (append (rfc3339 a.deadline) " and none arrived."))))
          (latest_sentence a.latest_completed_at));
  }

  unfoldable pub backup_missing : List AdherenceAnswer → List Condition
  backup_missing [] = []
  backup_missing (a ∷ as') =
      let rest = backup_missing as' in
      if is_missed a.state then missing_condition a ∷ rest else rest
