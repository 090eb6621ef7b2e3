-- ===== src/Alerts/Evaluators/Verifications.antt =====
-- verificationFailed: backups that were restored and proved unusable.
use Prim.Native.String.{◌++◌ as append}
use fleetward.Base.{
  ℕ, Bool, true, false, ◌&&◌, List, [], ◌∷◌, ◌++◌, Option, none, some, ltb, ◌==◌, if◌then◌else◌,
  row,
}
use fleetward.Scheduler.Rows.{VerificationState}
use fleetward.Alerts.Vocabulary.{RuleKind}
use fleetward.Alerts.Rules.{Condition}
use fleetward.Alerts.Estate.{InstanceRow, VerdictRow, AttemptRow, Texts, Estate, with_message}

-- `verificationFailedPredicate`, and `verdictFires`.
abbrev pub verdict_fires : VerificationState → Bool
verdict_fires VerificationState.failed = true
verdict_fires _ = false

-- The verdicts that count: the inner query's status IN (…).
abbrev pub is_conclusive : VerificationState → Bool
is_conclusive VerificationState.verified = true
is_conclusive VerificationState.failed = true
is_conclusive VerificationState.inconclusive = true
is_conclusive _ = false

abbrev pub later_verdict : VerdictRow → Option VerdictRow → Option VerdictRow
later_verdict v none = some v
later_verdict v (some w) = if ltb v.created_at w.created_at then some w else some v

-- ORDER BY created_at DESC LIMIT 1, over one backup's verdicts.
unfoldable pub latest_verdict : ℕ → List VerdictRow → Option VerdictRow
latest_verdict backup_id [] = none
latest_verdict backup_id (v ∷ vs) =
    let rest = latest_verdict backup_id vs in
    if v.backup_id == backup_id && is_conclusive v.status then later_verdict v rest else rest

abbrev pub is_latest : VerdictRow → Option VerdictRow → Bool
is_latest v none = false
is_latest v (some w) = w.id == v.id

unfoldable pub has_failed : ℕ → List VerdictRow → VerdictRow → Bool
has_failed tenant verdicts v =
    v.tenant_id == tenant
    && verdict_fires v.status
    && is_latest v (latest_verdict v.backup_id verdicts)

module _ (texts : Texts) where
  open texts use {rfc3339, decimal, hours, uuid}

  abbrev pub verification_condition : VerdictRow → InstanceRow → Condition
  verification_condition v i = record {
    kind = RuleKind.verification_failed;
    fingerprint = record { kind = RuleKind.verification_failed; subject = some v.backup_id };
    instance_id = some i.id;
    instance_name = i.name;
    environment_id = some i.environment_id;
    summary = append "A backup of " (append i.name " failed verification");
    detail = with_message " The verification reported: " v.error_message (
        append "Backup " (
          append (uuid v.backup_id) (
            append " on " (
              append i.name
                " was restored into a sandbox and the restored data did not match its manifest. This backup should not be relied on."))));
  }

  abbrev pub verification_of_instance : VerdictRow → Option InstanceRow → List Condition
  verification_of_instance v none = []
  verification_of_instance v (some i) = verification_condition v i ∷ []

  abbrev pub verification_of_backup :
      List InstanceRow → VerdictRow → Option AttemptRow → List Condition
  verification_of_backup instances v none = []
  verification_of_backup instances v (some b) =
      verification_of_instance v (row (λ i. i.id) b.instance_id instances)

  unfoldable pub verifications_from :
      ℕ → List InstanceRow → List AttemptRow → List VerdictRow → List VerdictRow → List Condition
  verifications_from tenant instances attempts verdicts [] = []
  verifications_from tenant instances attempts verdicts (v ∷ vs) =
      let rest = verifications_from tenant instances attempts verdicts vs in
      if has_failed tenant verdicts v
      then verification_of_backup instances v (row (λ b. b.id) v.backup_id attempts) ++ rest
      else rest

  abbrev pub verification_failed : ℕ → Estate → List Condition
  verification_failed tenant e =
      verifications_from tenant e.instances e.attempts e.verdicts e.verdicts
