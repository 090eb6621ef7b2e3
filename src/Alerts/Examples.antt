-- ===== src/Alerts/Examples.antt =====
-- The theorems on alerts, each applied to a small estate.
use fleetward.Base.{
  ◌+◌, ◌≡◌, refl, ◌↔◌, inl, true, false, List, [], ◌∷◌, none, some, arith, pos, ◌<◌, affected, row,
  IsKeyed,
}
use fleetward.Scheduler.Rows.{BackupState, VerificationState}
use fleetward.Backup.Retention.{Origin, Backup}
use fleetward.Backup.Retention.Sweep.{mark}
use fleetward.Alerts.Vocabulary.{
  RuleKind, AlertKind, Severity, AlertSeverity, AlertState, rule_kind_string, rule_kind_enum,
  is_kind,
}
use fleetward.Alerts.Vocabulary.Names.{rule_kind_string_iff}
use fleetward.Alerts.Rules.{
  Rule, Condition, GivenId, CreateRuleInput, match_rule, match_from, threshold_for, is_about,
}
use fleetward.Alerts.Rules.Loudest.{Decides, match_rule-Decides}
use fleetward.Alerts.Estate.{InstanceRow, VerdictRow, Texts, Estate}
use fleetward.Alerts.Evaluators.{evaluate_kind}
use fleetward.Alerts.Evaluators.Kinds.{evaluate_kind-AreOf}
use fleetward.Alerts.Evaluators.Backlog.{retention_blocked, allowance, allowed_hours}
use fleetward.Alerts.Evaluators.Reclaimed.{reclaimed_still_blocks}
use fleetward.Alerts.Evaluate.{Alert, Answers, EvaluateKind, evaluate}
use fleetward.Alerts.Evaluate.History.{evaluate-History}
use fleetward.Alerts.Evaluate.Sticky.{Continues, History-goes_forward}
use fleetward.Alerts.Evaluate.Deduplicated.{IsDeduplicated, History-IsDeduplicated}
use fleetward.Alerts.Evaluate.Spared.{alerts_of, AreSilent}
use fleetward.Alerts.Evaluate.Blind.{failed_kind_is_left_alone}

abbrev any_instance_down : Rule
any_instance_down = record {
  id = 1;
  tenant_id = 7;
  name = "Instance down";
  description = "";
  kind = RuleKind.instance_down;
  severity = Severity.warning;
  threshold = none;
  environment_id = none;
  instance_id = none;
  is_enabled = true;
  created_at = 0;
  updated_at = 0;
}

abbrev orders_down : Rule
orders_down = record any_instance_down {
  id = 2;
  name = "Orders down";
  severity = Severity.critical;
  instance_id = some 5;
}

abbrev any_backup_bad : Rule
any_backup_bad = record any_instance_down {
  id = 3;
  name = "Verification failed";
  kind = RuleKind.verification_failed;
}

abbrev rules : List Rule
rules = any_instance_down ∷ orders_down ∷ any_backup_bad ∷ []

abbrev orders : InstanceRow
orders = record {
  id = 5;
  tenant_id = 7;
  name = "orders";
  environment_id = 3;
  health = "HEALTH_STATE_DOWN";
  health_message = "connection refused";
  is_active = true;
  last_seen_at = none;
}

abbrev unusable : VerdictRow
unusable = record {
  id = 21;
  tenant_id = 7;
  backup_id = 11;
  status = VerificationState.failed;
  error_message = "rows differ";
  created_at = 90;
}

-- It was deleted at 100.
abbrev deleted_backup : Backup
deleted_backup = record {
  id = 12;
  tenant_id = 7;
  instance_id = 5;
  job_id = none;
  method_id = "pg_dump";
  external_id = none;
  checksum_value = "9f86d081";
  error_message = "";
  started_at = none;
  origin = Origin.managed;
  state = BackupState.expired;
  completed_at = some 10;
  expires_at = some 50;
  size_bytes = 4096;
  bucket = "backups";
  object_key = "orders/12";
  artifact_deleted_at = none;
  updated_at = 60;
}

abbrev estate : Estate
estate = record {
  instances = orders ∷ [];
  verdicts = unusable ∷ [];
  attempts =
      record {
        id = 11;
        tenant_id = 7;
        instance_id = 5;
        state = BackupState.succeeded;
        error_message = "";
        started_at = some 8;
      }
      ∷ [];
  backups = mark 100 deleted_backup ∷ [];
  adherence = [];
  rules = rules;
}

abbrev plain : Texts
plain = record { rfc3339 = λ t. "t"; decimal = λ n. "n"; hours = λ t. "h"; uuid = λ n. "id" }

abbrev working : Answers
working = record {
  rules_error = none;
  upsert_error = λ f. none;
  resolve_error = none;
  new_id = λ f. 40;
  locked = λ id. false;
}

abbrev all_answer : EvaluateKind
all_answer = evaluate_kind plain (λ k. none) 7 200 estate

-- The query on instances times out.
abbrev one_fails : EvaluateKind
one_fails k =
    evaluate_kind plain
      (λ j. elim (is_kind j RuleKind.instance_down) [ true ↦ some "timeout" | false ↦ none ]) 7 200
      estate k

abbrev known_down : Alert
known_down = record {
  id = 30;
  tenant_id = 7;
  rule_id = some 1;
  instance_id = some 5;
  severity = Severity.warning;
  state = AlertState.acknowledged;
  summary = "orders is not answering";
  detail = "";
  kind = RuleKind.instance_down;
  fingerprint = record { kind = RuleKind.instance_down; subject = some 5 };
  started_at = 150;
  last_seen_at = 150;
  acknowledged_at = some 160;
  acknowledged_by = none;
  resolved_at = none;
}

abbrev orders_condition : Condition
orders_condition = record {
  kind = RuleKind.instance_down;
  fingerprint = record { kind = RuleKind.instance_down; subject = some 5 };
  instance_id = some 5;
  instance_name = "orders";
  environment_id = some 3;
  summary = "";
  detail = "";
}

abbrev new_rule_input : CreateRuleInput
new_rule_input = record {
  name = " Nightly ";
  description = "";
  kind = AlertKind.backup_missing;
  severity = AlertSeverity.unspecified;
  threshold = pos 0;
  environment_id = GivenId.uuid 3;
  instance_id = GivenId.absent;
}

rule_kind_string_iff_example :
    (rule_kind_string AlertKind.backup_failed ≡ some RuleKind.backup_failed)
    ↔ (AlertKind.backup_failed ≡ rule_kind_enum RuleKind.backup_failed)
rule_kind_string_iff_example = rule_kind_string_iff AlertKind.backup_failed RuleKind.backup_failed

match_rule-Decides_example : Decides rules orders_condition (match_rule rules orders_condition)
match_rule-Decides_example = match_rule-Decides rules orders_condition

-- The rule for one instance is the louder one.
orders_down_decides : match_rule rules orders_condition ≡ some orders_down
unfolding match_rule match_from is_about
orders_down_decides = refl

row-known_down : row (λ b. b.id) 30 (known_down ∷ []) ≡ some known_down
unfolding row
row-known_down = refl

History-goes_forward_example :
    Continues 30 known_down
      (evaluate working 200 all_answer (some 7) rules (known_down ∷ [])).alerts
History-goes_forward_example =
    History-goes_forward 30 (known_down ∷ [])
      (evaluate working 200 all_answer (some 7) rules (known_down ∷ [])).alerts known_down
      row-known_down (evaluate-History (known_down ∷ []) working 200 all_answer (some 7) rules)

none-IsDeduplicated : IsDeduplicated []
unfolding affected
none-IsDeduplicated tenant f = omega arith

History-IsDeduplicated_example :
    IsDeduplicated (evaluate working 200 all_answer (some 7) rules []).alerts
History-IsDeduplicated_example =
    History-IsDeduplicated [] (evaluate working 200 all_answer (some 7) rules []).alerts
      none-IsDeduplicated (evaluate-History [] working 200 all_answer (some 7) rules)

instances_fail : one_fails RuleKind.instance_down ≡ inl "timeout"
unfolding evaluate_kind
instances_fail = refl

failed_kind_is_left_alone_example :
    let pass = evaluate working 200 one_fails (some 7) rules (known_down ∷ []) in
    (alerts_of RuleKind.instance_down pass.alerts ≡ known_down ∷ [])
    × AreSilent RuleKind.instance_down pass.sent
failed_kind_is_left_alone_example =
    failed_kind_is_left_alone working one_fails (λ k. evaluate_kind-AreOf plain 7 200 _ estate k)
      RuleKind.instance_down "timeout" instances_fail 200 7 (known_down ∷ []) (refl, tt) rules refl

verdicts-IsKeyed : IsKeyed (λ v. v.id) estate.verdicts
unfolding row
verdicts-IsKeyed = (refl, tt)

six_hours_later : 100 + allowance (allowed_hours 7 estate.rules) < 30000000000
unfolding threshold_for
six_hours_later = omega arith

reclaimed_still_blocks_example :
    (c : Condition) × (retention_blocked plain 7 30000000000 estate ≡ c ∷ [])
reclaimed_still_blocks_example =
    reclaimed_still_blocks plain 7 30000000000 estate [] deleted_backup [] 100 refl refl
      six_hours_later
