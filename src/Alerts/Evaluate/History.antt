-- ===== src/Alerts/Evaluate/History.antt =====
-- The statements that write alerts, in any order, from any number of control planes; and a pass as
-- a sequence of them.
use fleetward.Base.{
  ℕ, ◌≡◌, refl, sym, Bool, true, false, List, [], ◌∷◌, Option, none, some, String, subst,
}
use fleetward.Alerts.Vocabulary.{RuleKind, Fingerprint}
use fleetward.Alerts.Rules.{Rule, Condition, GivenId, load_enabled_rules, match_rule}
use fleetward.Alerts.Vocabulary.{evaluated_kinds}
use fleetward.Alerts.Evaluate.{
  Alert, upsert_alert, resolve_disappeared, EvaluateKind, Answers, Pass, announce, record_matched,
  record_by, record_all, evaluated, evaluate_tenant, evaluate, evaluate_kinds, acknowledge_alert,
  delete_alert_rule,
}

-- One statement, or one transaction, that the database carries out on `alerts`.
pub data Write : List Alert → List Alert → Type 0 where
  upserted :
      (tenant now id : ℕ) (r : Rule) (c : Condition) (alerts : List Alert)
      → Write alerts (upsert_alert tenant now id r c alerts).0
  resolved :
      (tenant now : ℕ) (covered : List RuleKind) (live : List Fingerprint) (locked : ℕ → Bool)
      (alerts : List Alert)
      → Write alerts (resolve_disappeared tenant now covered live locked alerts).0
  acknowledged :
      (now : ℕ) (caller : Option (ℕ × Option ℕ)) (id : GivenId) (alerts : List Alert)
      → Write alerts (acknowledge_alert now caller id alerts).0
  rule_deleted :
      (tenant now : ℕ) (id : GivenId) (rules : List Rule) (alerts : List Alert)
      → Write alerts (delete_alert_rule tenant now id (rules, alerts)).0.1

-- Any number of them, by anyone.
pub data History (start : List Alert) : List Alert → Type 0 where
  here : History start start
  next :
      {alerts alerts' : List Alert}
      → History start alerts
      → Write alerts alerts'
      → History start alerts'

module _ (start : List Alert) where
  module _ (db : Answers) (tenant now : ℕ) where
    announce-alerts :
        (r : Rule) (c : Condition) (p : Pass) (u : List Alert × Bool)
        → (announce db tenant now r c p u).alerts ≡ u.0
    announce-alerts r c p (alerts, false) = refl
    announce-alerts r c p (alerts, true) = refl

    record_matched-History :
        (r : Rule) (c : Condition) (p : Pass) (o : Option String)
        → History start p.alerts
        → History start (record_matched db tenant now r c p o).alerts
    record_matched-History r c p (some failed) h = h
    record_matched-History r c p none h =
        let id = db.new_id c.fingerprint in
        subst (History start)
          (sym (
            announce-alerts r c (record p { live = c.fingerprint ∷ p.live })
              (upsert_alert tenant now id r c p.alerts)))
          (next h (upserted tenant now id r c p.alerts))

    record_by-History :
        (o : Option Rule) (c : Condition) (p : Pass)
        → History start p.alerts
        → History start (record_by db tenant now o c p).alerts
    record_by-History none c p h = h
    record_by-History (some r) c p h =
        record_matched-History r c p (db.upsert_error c.fingerprint) h

    record_all-History :
        (rules : List Rule) (cs : List Condition) (p : Pass)
        → History start p.alerts
        → History start (record_all db tenant now rules cs p).alerts
    unfolding record_all
    record_all-History rules [] p h = h
    record_all-History rules (c ∷ cs) p h =
        record_all-History rules cs (record_by db tenant now (match_rule rules c) c p)
          (record_by-History (match_rule rules c) c p h)

  module _ (db : Answers) (now : ℕ) (evaluate_kind : EvaluateKind) where
    evaluated-History :
        (tenant : ℕ) (rules : List Rule) (cs : List Condition) (p : Pass) (o : Option String)
        (covered : List RuleKind)
        → History start p.alerts
        → History start
            (evaluated db now evaluate_kind tenant rules cs p o
              (resolve_disappeared tenant now covered p.live db.locked p.alerts)).alerts
    evaluated-History tenant rules cs p (some failed) covered h = h
    evaluated-History tenant rules cs p none covered h =
        next h (resolved tenant now covered p.live db.locked p.alerts)

    evaluate_tenant-History :
        (tenant : ℕ) (rules : List Rule) (o : Option String)
        → History start (evaluate_tenant db now evaluate_kind tenant rules start o).alerts
    evaluate_tenant-History tenant rules (some failed) = here
    evaluate_tenant-History tenant rules none =
        let enabled = load_enabled_rules tenant rules in
        let (covered, conditions) = evaluate_kinds evaluate_kind enabled evaluated_kinds in
        evaluated-History tenant enabled conditions _ db.resolve_error covered
          (record_all-History db tenant now enabled conditions _ here)

    -- A pass is a history.
    pub evaluate-History :
        (caller : Option ℕ) (rules : List Rule)
        → History start (evaluate db now evaluate_kind caller rules start).alerts
    unfolding evaluate
    evaluate-History none rules = here
    evaluate-History (some tenant) rules = evaluate_tenant-History tenant rules db.rules_error
