-- ===== src/Alerts/Evaluate.antt =====
-- internal/controlplane/alerts/evaluate.go: one pass over the estate, and the statements that write
-- alerts, with AcknowledgeAlert and DeleteAlertRule of service.go.
pub mod History
pub mod Evolution
pub mod Deduplicated
pub mod Sticky
pub mod OpenSet
pub mod CalledFor
pub mod Settles
pub mod Spared
pub mod Blind
use fleetward.Base.{
  ℕ, ◌+◌, ◌⊎◌, inl, inr, Bool, true, false, not, ◌&&◌, ◌||◌, List, [], ◌∷◌, ◌++◌, map, Option, none,
  some, String, ◌==◌, if◌then◌else◌, holds, is_some, length, exists, where_rows, update, affected,
  row,
}
use fleetward.Alerts.Vocabulary.{
  RuleKind, Severity, Fingerprint, AlertState, firing, acknowledged, resolved, is_open, is_kind,
  is_among, evaluated_kinds, is_fingerprint,
}
use fleetward.Alerts.Rules.{
  Rule, Condition, GivenId, absent, malformed, uuid, AlertError, bad_rule_id, no_rule, bad_alert_id,
  no_alert, no_principal, is_rule, load_enabled_rules, match_rule,
}

-- A row of `alerts`; `kind` is `labels->>'kind'`.
pub record Alert : Type 0 where
  pub id : ℕ
  pub tenant_id : ℕ
  pub rule_id : Option ℕ
  pub instance_id : Option ℕ
  pub severity : Severity
  pub state : AlertState
  pub summary : String
  pub detail : String
  pub kind : RuleKind
  pub fingerprint : Fingerprint
  pub started_at : ℕ
  pub last_seen_at : ℕ
  pub acknowledged_at : Option ℕ
  pub acknowledged_by : Option ℕ
  pub resolved_at : Option ℕ

-- What is handed to the dispatcher.
pub record Message : Type 0 where
  pub alert_id : ℕ
  pub kind : RuleKind
  pub severity : Severity
  pub state : AlertState
  pub instance_id : Option ℕ
  pub instance_name : String
  pub summary : String
  pub detail : String
  pub fingerprint : Fingerprint
  pub fired_at : ℕ

-- The rows that the partial unique index holds under a tenant's fingerprint.
unfoldable pub is_active : ℕ → Fingerprint → Alert → Bool
is_active tenant f a = a.tenant_id == tenant && is_fingerprint a.fingerprint f && is_open a.state

-- DO UPDATE SET …, which leaves the state alone.
abbrev pub refresh : ℕ → Rule → Condition → Alert → Alert
refresh now r c a = record a {
  last_seen_at = now;
  severity = r.severity;
  summary = c.summary;
  detail = c.detail;
  rule_id = some r.id;
}

abbrev pub new_alert : ℕ → ℕ → ℕ → Rule → Condition → Alert
new_alert tenant now id r c = record {
  id = id;
  tenant_id = tenant;
  rule_id = some r.id;
  instance_id = c.instance_id;
  severity = r.severity;
  state = firing;
  summary = c.summary;
  detail = c.detail;
  kind = c.kind;
  fingerprint = c.fingerprint;
  started_at = now;
  last_seen_at = now;
  acknowledged_at = none;
  acknowledged_by = none;
  resolved_at = none;
}

-- Whether the statement inserted is `xmax = 0`.
unfoldable pub upsert_alert : ℕ → ℕ → ℕ → Rule → Condition → List Alert → List Alert × Bool
upsert_alert tenant now id r c alerts =
    if exists (is_active tenant c.fingerprint) alerts
    then (update (is_active tenant c.fingerprint) (refresh now r c) alerts, false)
    else (alerts ++ new_alert tenant now id r c ∷ [], true)

abbrev pub is_live : List Fingerprint → Alert → Bool
is_live live a = exists (is_fingerprint a.fingerprint) live

abbrev pub has_disappeared : ℕ → List RuleKind → List Fingerprint → (ℕ → Bool) → Alert → Bool
has_disappeared tenant covered live locked a =
    a.tenant_id == tenant
    && is_open a.state
    && is_among covered a.kind
    && not (is_live live a)
    && not (locked a.id)

abbrev pub resolve : ℕ → Alert → Alert
resolve now a = record a { state = resolved; resolved_at = some now }

abbrev pub resolution : ℕ → Alert → Message
resolution now a = record {
  alert_id = a.id;
  kind = a.kind;
  severity = a.severity;
  state = resolved;
  instance_id = a.instance_id;
  instance_name = "";
  summary = a.summary;
  detail = a.detail;
  fingerprint = a.fingerprint;
  fired_at = now;
}

-- SKIP LOCKED passes over the rows that `locked` names.
unfoldable pub resolve_disappeared :
    ℕ → ℕ → List RuleKind → List Fingerprint → (ℕ → Bool) → List Alert → List Alert × List Message
resolve_disappeared tenant now [] live locked alerts = (alerts, [])
resolve_disappeared tenant now (k ∷ ks) live locked alerts = (
  update (has_disappeared tenant (k ∷ ks) live locked) (resolve now) alerts,
  map (resolution now) (where_rows (has_disappeared tenant (k ∷ ks) live locked) alerts),
)

abbrev pub EvaluateKind : Type 0
EvaluateKind = RuleKind → String ⊎ List Condition

-- What a pass may resolve, and what it found.
abbrev pub Findings : Type 0
Findings = List RuleKind × List Condition

abbrev pub found_more : RuleKind → String ⊎ List Condition → Findings → Findings
found_more k (inl failed) (covered, conditions) = (covered, conditions)
found_more k (inr found) (covered, conditions) = (k ∷ covered, found ++ conditions)

-- A kind without an enabled rule is not evaluated, and is covered.
unfoldable pub evaluate_kinds : EvaluateKind → List Rule → List RuleKind → Findings
evaluate_kinds evaluate_kind rules [] = ([], [])
evaluate_kinds evaluate_kind rules (k ∷ ks) =
    let (covered, conditions) = evaluate_kinds evaluate_kind rules ks in
    if exists (λ r. is_kind r.kind k) rules
    then found_more k (evaluate_kind k) (covered, conditions)
    else (k ∷ covered, conditions)

-- The answers of the database in one pass, and the rows that others hold locked.
pub record Answers : Type 0 where
  pub rules_error : Option String
  pub upsert_error : Fingerprint → Option String
  pub resolve_error : Option String
  pub new_id : Fingerprint → ℕ
  pub locked : ℕ → Bool

pub record Pass : Type 0 where
  pub alerts : List Alert
  pub live : List Fingerprint
  pub opened : ℕ
  pub sent : List Message

abbrev pub opening : ℕ → ℕ → Rule → Condition → Message
opening now id r c = record {
  alert_id = id;
  kind = c.kind;
  severity = r.severity;
  state = firing;
  instance_id = c.instance_id;
  instance_name = c.instance_name;
  summary = c.summary;
  detail = c.detail;
  fingerprint = c.fingerprint;
  fired_at = now;
}

module _ (db : Answers) (tenant now : ℕ) where
  abbrev pub announce : Rule → Condition → Pass → List Alert × Bool → Pass
  announce r c p (alerts, false) = record p { alerts = alerts }
  announce r c p (alerts, true) = record p {
    alerts = alerts;
    opened = p.opened + 1;
    sent = p.sent ++ opening now (db.new_id c.fingerprint) r c ∷ [];
  }

  abbrev pub record_matched : Rule → Condition → Pass → Option String → Pass
  record_matched r c p (some failed) = record p { live = c.fingerprint ∷ p.live }
  record_matched r c p none =
      announce r c (record p { live = c.fingerprint ∷ p.live })
        (upsert_alert tenant now (db.new_id c.fingerprint) r c p.alerts)

  abbrev pub record_by : Option Rule → Condition → Pass → Pass
  record_by none c p = p
  record_by (some r) c p = record_matched r c p (db.upsert_error c.fingerprint)

  unfoldable pub record_all : List Rule → List Condition → Pass → Pass
  record_all rules [] p = p
  record_all rules (c ∷ cs) p = record_all rules cs (record_by (match_rule rules c) c p)

pub record EvaluationResult : Type 0 where
  pub rules_considered : ℕ
  pub firing : ℕ
  pub opened : ℕ
  pub resolved : ℕ

-- The table, the messages in the order they were handed over, the counts and the error.
pub record Evaluation : Type 0 where
  pub alerts : List Alert
  pub sent : List Message
  pub result : EvaluationResult
  pub error : Option AlertError

module _ (db : Answers) (now : ℕ) (evaluate_kind : EvaluateKind) where
  abbrev pub evaluated :
      ℕ → List Rule → List Condition → Pass → Option String → List Alert × List Message → Evaluation
  evaluated tenant rules conditions p (some failed) (alerts, messages) = record {
    alerts = p.alerts;
    sent = p.sent;
    result = record {
      rules_considered = length rules;
      firing = length conditions;
      opened = p.opened;
      resolved = 0;
    };
    error = some (AlertError.database failed);
  }
  evaluated tenant rules conditions p none (alerts, messages) = record {
    alerts = alerts;
    sent = p.sent ++ messages;
    result = record {
      rules_considered = length rules;
      firing = length conditions;
      opened = p.opened;
      resolved = length messages;
    };
    error = none;
  }

  abbrev pub evaluate_found : ℕ → List Rule → List Alert → Findings → Evaluation
  evaluate_found tenant rules alerts (covered, conditions) =
      let p =
        record_all db tenant now rules conditions
          (record { alerts = alerts; live = []; opened = 0; sent = [] }) in
      evaluated tenant rules conditions p db.resolve_error
        (resolve_disappeared tenant now covered p.live db.locked p.alerts)

  abbrev pub nothing_done : List Alert → AlertError → Evaluation
  nothing_done alerts why = record {
    alerts = alerts;
    sent = [];
    result = record { rules_considered = 0; firing = 0; opened = 0; resolved = 0 };
    error = some why;
  }

  abbrev pub evaluate_tenant : ℕ → List Rule → List Alert → Option String → Evaluation
  evaluate_tenant tenant rules alerts (some failed) =
      nothing_done alerts (AlertError.database failed)
  evaluate_tenant tenant rules alerts none =
      let enabled = load_enabled_rules tenant rules in
      evaluate_found tenant enabled alerts (evaluate_kinds evaluate_kind enabled evaluated_kinds)

  unfoldable pub evaluate : Option ℕ → List Rule → List Alert → Evaluation
  evaluate none rules alerts = nothing_done alerts no_principal
  evaluate (some tenant) rules alerts = evaluate_tenant tenant rules alerts db.rules_error

abbrev pub is_firing : AlertState → Bool
is_firing firing = true
is_firing _ = false

abbrev pub is_acknowledgeable : ℕ → ℕ → Alert → Bool
is_acknowledgeable tenant id a = a.id == id && a.tenant_id == tenant && is_firing a.state

abbrev pub acknowledge : ℕ → Option ℕ → Alert → Alert
acknowledge now user a = record a {
  state = acknowledged;
  acknowledged_at = some now;
  acknowledged_by = user;
}

-- `getAlert`, without the names that it joins.
abbrev pub is_alert : ℕ → ℕ → Alert → Bool
is_alert tenant id a = a.id == id && a.tenant_id == tenant

unfoldable pub get_alert : ℕ → ℕ → List Alert → AlertError ⊎ Alert
get_alert tenant id [] = inl no_alert
get_alert tenant id (a ∷ as') =
    let rest = get_alert tenant id as' in if is_alert tenant id a then inr a else rest

-- The caller is a tenant and a user, if it has a row in `users`.
unfoldable pub acknowledge_alert :
    ℕ → Option (ℕ × Option ℕ) → GivenId → List Alert → List Alert × (AlertError ⊎ Alert)
acknowledge_alert now caller absent alerts = (alerts, inl bad_alert_id)
acknowledge_alert now caller malformed alerts = (alerts, inl bad_alert_id)
acknowledge_alert now none (uuid id) alerts = (alerts, inl no_principal)
acknowledge_alert now (some (tenant, user)) (uuid id) alerts =
    let alerts' = update (is_acknowledgeable tenant id) (acknowledge now user) alerts in
    (alerts', get_alert tenant id alerts')

abbrev pub is_opened_by : ℕ → ℕ → Alert → Bool
is_opened_by tenant id a = a.tenant_id == tenant && holds a.rule_id id && is_open a.state

-- ON DELETE SET NULL.
abbrev pub forget_rule : Alert → Alert
forget_rule a = record a { rule_id = none }

-- The transaction: it leaves everything as it was where there is no such rule.
unfoldable pub delete_alert_rule :
    ℕ → ℕ → GivenId → List Rule × List Alert → (List Rule × List Alert) × (AlertError ⊎ ℕ)
delete_alert_rule tenant now absent tables = (tables, inl bad_rule_id)
delete_alert_rule tenant now malformed tables = (tables, inl bad_rule_id)
delete_alert_rule tenant now (uuid id) (rules, alerts) =
    if affected (is_rule tenant id) rules == 0 then ((rules, alerts), inl no_rule) else (
      (
        where_rows (λ r. not (is_rule tenant id r)) rules,
        update (λ a. holds a.rule_id id) forget_rule
            (update (is_opened_by tenant id) (resolve now) alerts),
      ),
      inr (affected (is_opened_by tenant id) alerts),
    )
