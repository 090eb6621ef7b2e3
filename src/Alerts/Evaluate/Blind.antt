-- ===== src/Alerts/Evaluate/Blind.antt =====
-- A kind whose evaluator failed.
use fleetward.Base.{
  ℕ, ◌≡◌, refl, sym, ap, ◌∙◌, ◌⊎◌, inl, inr, true, false, List, [], ◌∷◌, Option, none, some, String,
  arith, Bool-cases, subst, All, All-append, All-map, exists,
}
use fleetward.Alerts.Vocabulary.{RuleKind, is_among, is_kind, evaluated_kinds}
use fleetward.Alerts.Vocabulary.Names.{is_kind→eq, is_kind_sym}
use fleetward.Alerts.Rules.{Rule, Condition, load_enabled_rules}
use fleetward.Alerts.Evaluate.{
  Alert, Evaluation, resolve_disappeared, EvaluateKind, Answers, Pass, record_all, Findings,
  found_more, evaluate_kinds, evaluated, evaluate_tenant, evaluate,
}
use fleetward.Alerts.Evaluate.OpenSet.{IsLabelled}
use fleetward.Alerts.Evaluate.CalledFor.{AreOf}
use fleetward.Alerts.Evaluate.Spared.{
  alerts_of, AreSilent, IsOther, IsKept, record_all-IsKept, resolved-alerts_of, resolved-AreSilent,
}

module _ (evaluate_kind : EvaluateKind) (honest : (k : RuleKind) → AreOf k (evaluate_kind k))
    (k : RuleKind) (failed : String) (fails : evaluate_kind k ≡ inl failed) (rules : List Rule)
    (wanted : exists (λ r. is_kind r.kind k) rules ≡ true) where
  -- The kind is not covered, and no condition of it was found.
  abbrev IsBlind : Findings → Type 0
  IsBlind (covered, cs) = (is_among covered k ≡ false) × All (IsOther k) cs

  found_more-IsBlind :
      (j : RuleKind) (o : String ⊎ List Condition) (found : Findings)
      → AreOf j o
      → is_kind k j ≡ false
      → IsBlind found
      → IsBlind (found_more j o found)
  found_more-IsBlind j (inl why) (covered, cs) of_kind apart blind = blind
  found_more-IsBlind j (inr more) (covered, cs) of_kind apart blind = (
    ground arith,
    All-append (IsOther k) more cs
        (All-map (λ c h. (h.0 ∙ sym h.1, ap (λ i. is_kind i k) h.0 ∙ is_kind_sym j k ∙ apart)) more
          of_kind)
        blind.1,
  )

  evaluate_kinds-IsBlind :
      (kinds : List RuleKind) → IsBlind (evaluate_kinds evaluate_kind rules kinds)
  unfolding evaluate_kinds
  evaluate_kinds-IsBlind [] = (refl, tt)
  evaluate_kinds-IsBlind (j ∷ js) =
      let rest = evaluate_kinds evaluate_kind rules js in
      let blind = evaluate_kinds-IsBlind js in
      elim (Bool-cases (is_kind k j)) [
        | inl same ↦
            subst (λ i. IsBlind (evaluate_kinds evaluate_kind rules (i ∷ js))) (is_kind→eq k j same)
              (rw wanted (rw fails blind))
        | inr apart ↦ elim (Bool-cases (exists (λ r. is_kind r.kind j) rules)) [
          | inl wanted' ↦
              rw wanted' (found_more-IsBlind j (evaluate_kind j) rest (honest j) apart blind)
          | inr unwanted ↦ rw unwanted (ground arith, blind.1)
        ]
      ]

module _ (db : Answers) (evaluate_kind : EvaluateKind)
    (honest : (k : RuleKind) → AreOf k (evaluate_kind k)) (k : RuleKind) (failed : String)
    (fails : evaluate_kind k ≡ inl failed) (now tenant : ℕ) (alerts : List Alert)
    (labelled : IsLabelled alerts) where
  abbrev pub IsSpared : Evaluation → Type 0
  IsSpared e = (alerts_of k e.alerts ≡ alerts_of k alerts) × AreSilent k e.sent

  evaluated-IsSpared :
      (rules : List Rule) (cs : List Condition) (p : Pass) (o : Option String)
      (covered : List RuleKind)
      → is_among covered k ≡ false
      → IsKept k db tenant now alerts p
      → IsSpared (
          evaluated db now evaluate_kind tenant rules cs p o
            (resolve_disappeared tenant now covered p.live db.locked p.alerts))
  evaluated-IsSpared rules cs p (some why) covered out kept = (kept.1, kept.2)
  evaluated-IsSpared rules cs p none covered out kept = (
    resolved-alerts_of k db tenant now alerts covered p.live p.alerts out ∙ kept.1,
    All-append _ p.sent _ kept.2
        (resolved-AreSilent k db tenant now alerts covered p.live p.alerts out),
  )

  evaluate_tenant-IsSpared :
      (rules : List Rule) (o : Option String)
      → exists (λ r. is_kind r.kind k) (load_enabled_rules tenant rules) ≡ true
      → IsSpared (evaluate_tenant db now evaluate_kind tenant rules alerts o)
  evaluate_tenant-IsSpared rules (some why) wanted = (refl, tt)
  evaluate_tenant-IsSpared rules none wanted =
      let enabled = load_enabled_rules tenant rules in
      let found = evaluate_kinds evaluate_kind enabled evaluated_kinds in
      let blind =
        evaluate_kinds-IsBlind evaluate_kind honest k failed fails enabled wanted evaluated_kinds in
      let start : Pass = record { alerts = alerts; live = []; opened = 0; sent = [] } in
      evaluated-IsSpared enabled found.1 (record_all db tenant now enabled found.1 start)
        db.resolve_error found.0 blind.0
        (record_all-IsKept k db tenant now alerts enabled found.1 start blind.1
          (labelled, refl, tt))

  -- Where some enabled rule is of a kind and the evaluator of that kind fails, the pass leaves every
  -- alert of the kind as it was, adds none and hands over no message about the kind, whatever the
  -- database answers and whatever the other evaluators find, so long as each finds conditions of its
  -- own kind: a query that fails neither opens an alert nor resolves one, and announces neither.
  pub failed_kind_is_left_alone :
      (rules : List Rule)
      → exists (λ r. is_kind r.kind k) (load_enabled_rules tenant rules) ≡ true
      → IsSpared (evaluate db now evaluate_kind (some tenant) rules alerts)
  unfolding evaluate
  failed_kind_is_left_alone rules wanted = evaluate_tenant-IsSpared rules db.rules_error wanted
