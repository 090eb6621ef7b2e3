-- ===== src/Alerts/Rules.antt =====
-- Alert rules: internal/controlplane/alerts/service.go, and matchRule of evaluate.go. A threshold is
-- a count of thousandths, in place of a float64.
pub mod Loudest
pub mod Created
use Prim.Native.Char.{code}
use text.Mathlib.Text.{◌==◌ as str_eq}
use fleetward.Base.{
  ℕ, ◌⊎◌, inl, inr, Bool, true, false, not, ◌&&◌, ◌||◌, List, [], ◌∷◌, ◌++◌, Option, none, some,
  String, leb, ltb, ◌==◌, if◌then◌else◌, ℤ, pos, negsuc, is_positive, holds, is_some, exists,
  where_rows, update, affected,
}
use fleetward.Alerts.Vocabulary.{
  RuleKind, AlertKind, Severity, AlertSeverity, Fingerprint, is_kind, rule_kind_string,
  has_evaluator, severity_string, default_severity_for, severity_rank_of,
}

-- A row of `alert_rules`.
pub record Rule : Type 0 where
  pub id : ℕ
  pub tenant_id : ℕ
  pub name : String
  pub description : String
  pub kind : RuleKind
  pub severity : Severity
  pub threshold : Option ℤ
  pub environment_id : Option ℕ
  pub instance_id : Option ℕ
  pub is_enabled : Bool
  pub created_at : ℕ
  pub updated_at : ℕ

-- One thing that is true, found by an evaluator.
pub record Condition : Type 0 where
  pub kind : RuleKind
  pub fingerprint : Fingerprint
  pub instance_id : Option ℕ
  pub instance_name : String
  pub environment_id : Option ℕ
  pub summary : String
  pub detail : String

abbrev pub load_enabled_rules : ℕ → List Rule → List Rule
load_enabled_rules tenant = where_rows (λ r. r.tenant_id == tenant && r.is_enabled)

abbrev pub is_in_scope : Option ℕ → Option ℕ → Condition → Bool
is_in_scope (some instance_id) environment_id c = holds c.instance_id instance_id
is_in_scope none (some environment_id) c = holds c.environment_id environment_id
is_in_scope none none c = true

unfoldable pub is_about : Rule → Condition → Bool
is_about r c = is_kind r.kind c.kind && is_in_scope r.instance_id r.environment_id c

abbrev pub is_louder : Rule → Option Rule → Bool
is_louder r none = true
is_louder r (some best) = ltb (severity_rank_of best.severity) (severity_rank_of r.severity)

unfoldable pub match_from : Option Rule → List Rule → Condition → Option Rule
match_from best [] c = best
match_from best (r ∷ rs) c =
    match_from (if is_about r c && is_louder r best then some r else best) rs c

unfoldable pub match_rule : List Rule → Condition → Option Rule
match_rule rules c = match_from none rules c

abbrev pub is_positive_threshold : Option ℤ → Bool
is_positive_threshold none = false
is_positive_threshold (some t) = is_positive t

abbrev pub threshold_or : ℤ → Option ℤ → ℤ
threshold_or fallback none = fallback
threshold_or fallback (some t) = t

unfoldable pub threshold_for : List Rule → RuleKind → ℤ → ℤ
threshold_for [] kind fallback = fallback
threshold_for (r ∷ rs) kind fallback =
    let rest = threshold_for rs kind fallback in
    if is_kind r.kind kind && is_positive_threshold r.threshold
    then threshold_or fallback r.threshold
    else rest

-- unicode.IsSpace.
abbrev pub is_space : ℕ → Bool
is_space c =
    leb 9 c && leb c 13
    || c == 32
    || c == 0x85
    || c == 0xa0
    || c == 0x1680
    || leb 0x2000 c && leb c 0x200a
    || c == 0x2028
    || c == 0x2029
    || c == 0x202f
    || c == 0x205f
    || c == 0x3000

unfoldable pub trim_left : String → String
trim_left String.[] = String.[]
trim_left (String.◌∷◌ c s) =
    let rest = trim_left s in if is_space (code c) then rest else String.◌∷◌ c s

unfoldable pub trim_right : String → String
trim_right String.[] = String.[]
trim_right (String.◌∷◌ c s) =
    let rest = trim_right s in
    if is_space (code c) && str_eq rest "" then String.[] else String.◌∷◌ c rest

unfoldable pub trim_space : String → String
trim_space s = trim_right (trim_left s)

-- An id in a request: empty, no UUID, or one.
pub data GivenId : Type 0 where
  absent malformed : GivenId
  uuid : ℕ → GivenId

abbrev pub is_given : GivenId → Bool
is_given absent = false
is_given _ = true

abbrev pub is_malformed : GivenId → Bool
is_malformed malformed = true
is_malformed _ = false

abbrev pub nullable_uuid : GivenId → Option ℕ
nullable_uuid (uuid id) = some id
nullable_uuid _ = none

pub record CreateRuleInput : Type 0 where
  pub name : String
  pub description : String
  pub kind : AlertKind
  pub severity : AlertSeverity
  pub threshold : ℤ
  pub environment_id : GivenId
  pub instance_id : GivenId

-- Invalid arguments, what is not found, and the database's error.
pub data AlertError : Type 0 where
  name_required kind_unknown both_scopes bad_environment_id bad_instance_id name_taken : AlertError
  bad_rule_id no_rule bad_alert_id no_alert no_principal : AlertError
  no_evaluator : RuleKind → AlertError
  database : String → AlertError

abbrev pub nonzero : ℤ → Option ℤ
nonzero (pos n) = if n == 0 then none else some (pos n)
nonzero (negsuc n) = some (negsuc n)

abbrev pub severity_or : Severity → Option Severity → Severity
severity_or fallback none = fallback
severity_or fallback (some s) = s

abbrev pub new_rule : ℕ → ℕ → ℕ → String → RuleKind → CreateRuleInput → Rule
new_rule tenant id now name kind input = record {
  id = id;
  tenant_id = tenant;
  name = name;
  description = input.description;
  kind = kind;
  severity = severity_or (default_severity_for input.kind) (severity_string input.severity);
  threshold = nonzero input.threshold;
  environment_id = nullable_uuid input.environment_id;
  instance_id = nullable_uuid input.instance_id;
  is_enabled = true;
  created_at = now;
  updated_at = now;
}

abbrev pub is_named : ℕ → String → Rule → Bool
is_named tenant name r = r.tenant_id == tenant && str_eq r.name name

-- The INSERT, on a unique index on (tenant_id, name). The answer of the database is an error, such
-- as a scope that does not exist, or none.
unfoldable pub insert_rule : Option String → Rule → List Rule → AlertError ⊎ (Rule × List Rule)
insert_rule (some message) r rules = inl (database message)
insert_rule none r rules =
    if exists (is_named r.tenant_id r.name) rules then inl name_taken else inr (r, rules ++ r ∷ [])

abbrev pub insert_of_kind :
    Option String
    → ℕ
    → ℕ
    → ℕ
    → CreateRuleInput
    → List Rule
    → Option RuleKind
    → AlertError ⊎ (Rule × List Rule)
insert_of_kind answer tenant id now input rules none = inl kind_unknown
insert_of_kind answer tenant id now input rules (some kind) =
    if not (has_evaluator input.kind)
    then inl (no_evaluator kind)
    else if is_given input.environment_id && is_given input.instance_id
    then inl both_scopes
    else if is_malformed input.environment_id
    then inl bad_environment_id
    else if is_malformed input.instance_id
    then inl bad_instance_id
    else insert_rule answer (new_rule tenant id now (trim_space input.name) kind input) rules

unfoldable pub create_alert_rule :
    Option String → ℕ → ℕ → ℕ → CreateRuleInput → List Rule → AlertError ⊎ (Rule × List Rule)
create_alert_rule answer tenant id now input rules =
    if str_eq (trim_space input.name) ""
    then inl name_required
    else insert_of_kind answer tenant id now input rules (rule_kind_string input.kind)

abbrev pub is_rule : ℕ → ℕ → Rule → Bool
is_rule tenant id r = r.id == id && r.tenant_id == tenant

abbrev pub set_rule_enabled : ℕ → ℕ → Bool → ℕ → List Rule → AlertError ⊎ List Rule
set_rule_enabled tenant now enabled id rules =
    if affected (is_rule tenant id) rules == 0
    then inl no_rule
    else inr (
        update (is_rule tenant id) (λ r. record r { is_enabled = enabled; updated_at = now }) rules)

unfoldable pub set_alert_rule_enabled : ℕ → ℕ → GivenId → Bool → List Rule → AlertError ⊎ List Rule
set_alert_rule_enabled tenant now (uuid id) enabled rules =
    set_rule_enabled tenant now enabled id rules
set_alert_rule_enabled tenant now absent enabled rules = inl bad_rule_id
set_alert_rule_enabled tenant now malformed enabled rules = inl bad_rule_id
