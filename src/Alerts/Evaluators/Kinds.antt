-- ===== src/Alerts/Evaluators/Kinds.antt =====
-- Every evaluator finds conditions of its own kind, as a pass relies on.
use fleetward.Base.{
  ℕ, ℤ, ◌≡◌, refl, inl, inr, List, [], ◌∷◌, Option, none, some, String, ◌==◌, Bool-cases, All,
  All-append, row,
}
use fleetward.Alerts.Vocabulary.{RuleKind}
use fleetward.Alerts.Rules.{Condition}
use fleetward.Alerts.Estate.{InstanceRow, VerdictRow, AttemptRow, AdherenceAnswer, Texts, Estate}
use fleetward.Alerts.Evaluate.CalledFor.{AreOf}
use fleetward.Alerts.Evaluators.{evaluator_for, or_failed, evaluate_kind}
use fleetward.Alerts.Evaluators.Verifications.{
  has_failed, verification_of_backup, verification_of_instance, verifications_from,
}
use fleetward.Alerts.Evaluators.Availability.{
  is_down, instances_down, is_failed, last_attempt, attempt_condition, attempts_failed,
}
use fleetward.Alerts.Evaluators.Windows.{is_missed, backup_missing}
use fleetward.Alerts.Evaluators.Backlog.{
  Backlog, blocked, allowed_hours, backlog_of, retention_blocked,
}

abbrev IsOf : RuleKind → Condition → Type 0
IsOf k c = (c.kind ≡ k) × (c.fingerprint.kind ≡ k)

module _ (texts : Texts) (tenant now : ℕ) where
  verifications-IsOf :
      (instances : List InstanceRow) (attempts : List AttemptRow) (verdicts vs : List VerdictRow)
      → All
          (IsOf RuleKind.verification_failed)
          (verifications_from texts tenant instances attempts verdicts vs)
  unfolding verifications_from
  verifications-IsOf instances attempts verdicts [] = tt
  verifications-IsOf instances attempts verdicts (v ∷ vs) =
      elim (Bool-cases (has_failed tenant verdicts v)) [
        | inr sound ↦ rw sound (verifications-IsOf instances attempts verdicts vs)
        | inl failed ↦ rw failed (
            All-append _
              (verification_of_backup texts instances v (row (λ b. b.id) v.backup_id attempts)) _
              (of_backup (row (λ b. b.id) v.backup_id attempts))
              (verifications-IsOf instances attempts verdicts vs))
      ]
    where
      of_instance :
          (o : Option InstanceRow)
          → All (IsOf RuleKind.verification_failed) (verification_of_instance texts v o)
      of_instance none = tt
      of_instance (some i) = ((refl, refl), tt)

      of_backup :
          (o : Option AttemptRow)
          → All (IsOf RuleKind.verification_failed) (verification_of_backup texts instances v o)
      of_backup none = tt
      of_backup (some b) = of_instance (row (λ i. i.id) b.instance_id instances)

  down-IsOf :
      (is : List InstanceRow) → All (IsOf RuleKind.instance_down) (instances_down texts tenant is)
  unfolding instances_down
  down-IsOf [] = tt
  down-IsOf (i ∷ is) = elim (Bool-cases (is_down tenant i)) [
    | inl down ↦ rw down ((refl, refl), down-IsOf is)
    | inr up ↦ rw up (down-IsOf is)
  ]

  attempt-IsOf :
      (i : InstanceRow) (o : Option AttemptRow)
      → All (IsOf RuleKind.backup_failed) (attempt_condition texts i o)
  attempt-IsOf i none = tt
  attempt-IsOf i (some b) = elim (Bool-cases (is_failed b.state)) [
    | inl failed ↦ rw failed ((refl, refl), tt)
    | inr other ↦ rw other tt
  ]

  attempts-IsOf :
      (attempts : List AttemptRow) (is : List InstanceRow)
      → All (IsOf RuleKind.backup_failed) (attempts_failed texts tenant attempts is)
  unfolding attempts_failed
  attempts-IsOf attempts [] = tt
  attempts-IsOf attempts (i ∷ is) = elim (Bool-cases i.is_active) [
    | inl active ↦ rw active (
        All-append _ (attempt_condition texts i (last_attempt tenant i.id attempts)) _
          (attempt-IsOf i (last_attempt tenant i.id attempts)) (attempts-IsOf attempts is))
    | inr retired ↦ rw retired (attempts-IsOf attempts is)
  ]

  missing-IsOf :
      (answers : List AdherenceAnswer)
      → All (IsOf RuleKind.backup_missing) (backup_missing texts answers)
  unfolding backup_missing
  missing-IsOf [] = tt
  missing-IsOf (a ∷ rest) = elim (Bool-cases (is_missed a.state)) [
    | inl missed ↦ rw missed ((refl, refl), missing-IsOf rest)
    | inr other ↦ rw other (missing-IsOf rest)
  ]

  blocked-IsOf :
      (hours : ℤ) (b : Backlog) (o : Option ℕ)
      → All (IsOf RuleKind.retention_blocked) (blocked texts hours b o)
  blocked-IsOf hours b none = tt
  blocked-IsOf hours b (some t) = elim (Bool-cases (b.stuck == 0)) [
    | inl nothing ↦ rw nothing tt
    | inr stuck ↦ rw stuck ((refl, refl), tt)
  ]

  evaluator_for-AreOf : (e : Estate) (k : RuleKind) → AreOf k (evaluator_for texts tenant now e k)
  unfolding evaluator_for retention_blocked
  evaluator_for-AreOf e RuleKind.verification_failed =
      verifications-IsOf e.instances e.attempts e.verdicts e.verdicts
  evaluator_for-AreOf e RuleKind.instance_down = down-IsOf e.instances
  evaluator_for-AreOf e RuleKind.backup_failed = attempts-IsOf e.attempts e.instances
  evaluator_for-AreOf e RuleKind.backup_missing = missing-IsOf e.adherence
  evaluator_for-AreOf e RuleKind.retention_blocked =
      let hours = allowed_hours tenant e.rules in
      let b = backlog_of tenant now hours e.backups in blocked-IsOf hours b b.oldest
  evaluator_for-AreOf e RuleKind.storage_threshold = tt
  evaluator_for-AreOf e RuleKind.replication_lag = tt
  evaluator_for-AreOf e RuleKind.custom_promql = tt

  pub evaluate_kind-AreOf :
      (query_error : RuleKind → Option String) (e : Estate) (k : RuleKind)
      → AreOf k (evaluate_kind texts query_error tenant now e k)
  unfolding evaluate_kind
  evaluate_kind-AreOf query_error e k = answered (query_error k)
    where
      answered : (o : Option String) → AreOf k (or_failed o (evaluator_for texts tenant now e k))
      answered none = evaluator_for-AreOf e k
      answered (some failed) = tt
