-- ===== src/Alerts/Vocabulary.antt =====
-- The vocabulary of internal/controlplane/alerts/evaluate.go: kinds, severities and states, as the
-- API's enums and as the CHECK constraints spell them. A fingerprint is the text `kind:id`; no kind
-- has a colon, so it is the pair.
pub mod Names
use fleetward.Base.{ℕ, Bool, true, false, ◌&&◌, List, [], ◌∷◌, Option, none, some, ◌==◌, exists}

-- `alert_rules.kind`.
pub data RuleKind : Type 0 where
  instance_down verification_failed backup_failed backup_missing retention_blocked : RuleKind
  storage_threshold replication_lag custom_promql : RuleKind

-- The API's kinds. An enum of the protocol is open: it may hold a number without a name.
pub data AlertKind : Type 0 where
  unspecified instance_down verification_failed backup_failed backup_missing : AlertKind
  storage_threshold replication_lag custom_promql retention_blocked : AlertKind
  unknown : ℕ → AlertKind

-- `alert_rules.severity`.
pub data Severity : Type 0 where
  info warning critical : Severity

pub data AlertSeverity : Type 0 where
  unspecified info warning critical : AlertSeverity
  unknown : ℕ → AlertSeverity

-- `alerts.state`.
pub data AlertState : Type 0 where
  firing acknowledged resolved : AlertState

abbrev pub is_open : AlertState → Bool
is_open firing = true
is_open acknowledged = true
is_open resolved = false

abbrev pub kind_number : RuleKind → ℕ
kind_number instance_down = 0
kind_number verification_failed = 1
kind_number backup_failed = 2
kind_number backup_missing = 3
kind_number retention_blocked = 4
kind_number storage_threshold = 5
kind_number replication_lag = 6
kind_number custom_promql = 7

abbrev pub is_kind : RuleKind → RuleKind → Bool
is_kind k l = kind_number k == kind_number l

abbrev pub evaluated_kinds : List RuleKind
evaluated_kinds =
    RuleKind.instance_down ∷ RuleKind.verification_failed ∷ RuleKind.backup_failed
    ∷ RuleKind.backup_missing ∷ RuleKind.retention_blocked ∷ []

abbrev pub is_among : List RuleKind → RuleKind → Bool
is_among kinds k = exists (is_kind k) kinds

unfoldable pub rule_kind_string : AlertKind → Option RuleKind
rule_kind_string unspecified = none
rule_kind_string instance_down = some RuleKind.instance_down
rule_kind_string verification_failed = some RuleKind.verification_failed
rule_kind_string backup_failed = some RuleKind.backup_failed
rule_kind_string backup_missing = some RuleKind.backup_missing
rule_kind_string storage_threshold = some RuleKind.storage_threshold
rule_kind_string replication_lag = some RuleKind.replication_lag
rule_kind_string custom_promql = some RuleKind.custom_promql
rule_kind_string retention_blocked = some RuleKind.retention_blocked
rule_kind_string (unknown n) = none

unfoldable pub rule_kind_enum : RuleKind → AlertKind
rule_kind_enum instance_down = AlertKind.instance_down
rule_kind_enum verification_failed = AlertKind.verification_failed
rule_kind_enum backup_failed = AlertKind.backup_failed
rule_kind_enum backup_missing = AlertKind.backup_missing
rule_kind_enum retention_blocked = AlertKind.retention_blocked
rule_kind_enum storage_threshold = AlertKind.storage_threshold
rule_kind_enum replication_lag = AlertKind.replication_lag
rule_kind_enum custom_promql = AlertKind.custom_promql

unfoldable pub has_evaluator : AlertKind → Bool
has_evaluator k = elim (rule_kind_string k) [
  | none ↦ false
  | some name ↦ is_among evaluated_kinds name
]

-- The empty string is none.
unfoldable pub severity_string : AlertSeverity → Option Severity
severity_string unspecified = none
severity_string info = some Severity.info
severity_string warning = some Severity.warning
severity_string critical = some Severity.critical
severity_string (unknown n) = none

unfoldable pub severity_enum : Severity → AlertSeverity
severity_enum info = AlertSeverity.info
severity_enum warning = AlertSeverity.warning
severity_enum critical = AlertSeverity.critical

unfoldable pub default_severity_for : AlertKind → Severity
default_severity_for verification_failed = Severity.critical
default_severity_for _ = Severity.warning

abbrev pub severity_rank_of : Severity → ℕ
severity_rank_of info = 1
severity_rank_of warning = 2
severity_rank_of critical = 3

unfoldable pub severity_rank : AlertSeverity → ℕ
severity_rank s = elim (severity_string s) [ none ↦ 0 | some t ↦ severity_rank_of t ]

-- None is the estate's.
pub record Fingerprint : Type 0 where
  pub kind : RuleKind
  pub subject : Option ℕ

abbrev pub is_subject : Option ℕ → Option ℕ → Bool
is_subject none none = true
is_subject (some m) (some n) = m == n
is_subject _ _ = false

abbrev pub is_fingerprint : Fingerprint → Fingerprint → Bool
is_fingerprint f g = is_kind f.kind g.kind && is_subject f.subject g.subject
