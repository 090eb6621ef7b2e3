-- ===== src/Alerts/Evaluate/Evolution.antt =====
-- How a row of `alerts` may change.
use fleetward.Base.{
  ℕ, ◌≤◌, ◌≡◌, refl, ◌∙◌, ◌⊎◌, inl, inr, Bool, true, false, List, [], ◌∷◌, ◌++◌, holds, Option,
  none, some, arith, ◌==◌, Bool-cases, exists, update, affected,
}
use fleetward.Alerts.Vocabulary.{
  RuleKind, Fingerprint, AlertState, firing, acknowledged, resolved, is_open,
}
use fleetward.Alerts.Rules.{Rule, Condition, GivenId, absent, malformed, uuid, is_rule}
use fleetward.Alerts.Evaluate.{
  Alert, is_active, refresh, new_alert, upsert_alert, has_disappeared, resolve, resolve_disappeared,
  is_acknowledgeable, acknowledge, acknowledge_alert, is_firing, is_opened_by, forget_rule,
  delete_alert_rule,
}
use fleetward.Alerts.Evaluate.History.{Write}

abbrev pub state_number : AlertState → ℕ
state_number firing = 0
state_number acknowledged = 1
state_number resolved = 2

-- The row is the same alert, its state has not gone back, and once it is resolved it says when.
pub record Follows (a a' : Alert) : Type 0 where
  pub same_id : a'.id ≡ a.id
  pub same_tenant : a'.tenant_id ≡ a.tenant_id
  pub same_fingerprint : a'.fingerprint ≡ a.fingerprint
  pub same_kind : a'.kind ≡ a.kind
  pub forward : state_number a.state ≤ state_number a'.state
  pub settled : a.state ≡ resolved → a'.resolved_at ≡ a.resolved_at

pub Follows-refl : (a : Alert) → Follows a a
Follows-refl a = record {
  same_id = refl;
  same_tenant = refl;
  same_fingerprint = refl;
  same_kind = refl;
  forward = omega arith;
  settled = λ _. refl;
}

closed_state : (s t : AlertState) → state_number s ≤ state_number t → s ≡ resolved → t ≡ resolved
closed_state s AlertState.resolved h e = refl
closed_state s AlertState.firing h e = absurd (ground arith)
closed_state s AlertState.acknowledged h e = absurd (ground arith)

pub Follows-trans : {a b c : Alert} → Follows a b → Follows b c → Follows a c
Follows-trans {a} {b} {c} h k = record {
  same_id = k.same_id ∙ h.same_id;
  same_tenant = k.same_tenant ∙ h.same_tenant;
  same_fingerprint = k.same_fingerprint ∙ h.same_fingerprint;
  same_kind = k.same_kind ∙ h.same_kind;
  forward = omega (arith, h.forward, k.forward);
  settled = λ e. k.settled (closed_state a.state b.state h.forward e) ∙ h.settled e;
}

-- Row by row.
abbrev pub Each : List Alert → List Alert → Type 0
Each [] [] = Unit
Each [] (y ∷ ys) = ⊥
Each (x ∷ xs) [] = ⊥
Each (x ∷ xs) (y ∷ ys) = Follows x y × Each xs ys

Each-trans : (xs ys zs : List Alert) → Each xs ys → Each ys zs → Each xs zs
Each-trans [] [] [] h k = tt
Each-trans [] [] (z ∷ zs) h k = absurd k
Each-trans [] (y ∷ ys) zs h k = absurd h
Each-trans (x ∷ xs) [] zs h k = absurd h
Each-trans (x ∷ xs) (y ∷ ys) [] h k = absurd k
Each-trans (x ∷ xs) (y ∷ ys) (z ∷ zs) h k = (Follows-trans h.0 k.0, Each-trans xs ys zs h.1 k.1)

Each-refl : (xs : List Alert) → Each xs xs
Each-refl [] = tt
Each-refl (x ∷ xs) = (Follows-refl x, Each-refl xs)

update-Each :
    (p : Alert → Bool) (f : Alert → Alert)
    → ((a : Alert) → p a ≡ true → Follows a (f a))
    → (xs : List Alert) → Each xs (update p f xs)
unfolding update
update-Each p f follows [] = tt
update-Each p f follows (x ∷ xs) = elim (Bool-cases (p x)) [
  | inl hit ↦ rw hit (follows x hit, update-Each p f follows xs)
  | inr miss ↦ rw miss (Follows-refl x, update-Each p f follows xs)
]

refresh-Follows : (now : ℕ) (r : Rule) (c : Condition) (a : Alert) → Follows a (refresh now r c a)
refresh-Follows now r c a = record {
  same_id = refl;
  same_tenant = refl;
  same_fingerprint = refl;
  same_kind = refl;
  forward = omega arith;
  settled = λ _. refl;
}

forget_rule-Follows : (a : Alert) → Follows a (forget_rule a)
forget_rule-Follows a = record {
  same_id = refl;
  same_tenant = refl;
  same_fingerprint = refl;
  same_kind = refl;
  forward = omega arith;
  settled = λ _. refl;
}

open_state : (s : AlertState) → is_open s ≡ true → (state_number s ≤ 2) × (s ≡ resolved → ⊥)
open_state AlertState.firing h = (omega arith, λ e. ground arith)
open_state AlertState.acknowledged h = (omega arith, λ e. ground arith)
open_state AlertState.resolved h = absurd (cc)

firing_state : (s : AlertState) → is_firing s ≡ true → s ≡ firing
firing_state AlertState.firing h = refl
firing_state AlertState.acknowledged h = cc
firing_state AlertState.resolved h = cc

resolve-Follows : (now : ℕ) (a : Alert) → is_open a.state ≡ true → Follows a (resolve now a)
resolve-Follows now a still = record {
  same_id = refl;
  same_tenant = refl;
  same_fingerprint = refl;
  same_kind = refl;
  forward = (open_state a.state still).0;
  settled = λ e. absurd ((open_state a.state still).1 e);
}

acknowledge-Follows :
    (now : ℕ) (user : Option ℕ) (a : Alert)
    → is_firing a.state ≡ true
    → Follows a (acknowledge now user a)
acknowledge-Follows now user a loud =
    let e = firing_state a.state loud in
    record {
      same_id = refl;
      same_tenant = refl;
      same_fingerprint = refl;
      same_kind = refl;
      forward = ground arith;
      settled = λ r. absurd (ground arith);
    }

-- The rows that were there, each followed up, or these and one new alert that had no active row.
abbrev pub Evolves : List Alert → List Alert → Type 0
Evolves xs ys =
    Each xs ys
    ⊎ ((n : Alert) × (ys ≡ xs ++ n ∷ [])
        × (exists (is_active n.tenant_id n.fingerprint) xs ≡ false))

upsert_alert-Evolves :
    (tenant now id : ℕ) (r : Rule) (c : Condition) (alerts : List Alert)
    → Evolves alerts (upsert_alert tenant now id r c alerts).0
unfolding upsert_alert
upsert_alert-Evolves tenant now id r c alerts =
    elim (Bool-cases (exists (is_active tenant c.fingerprint) alerts)) [
      | inl known ↦ rw known (
          inl (
            update-Each (is_active tenant c.fingerprint) (refresh now r c)
              (λ a _. refresh-Follows now r c a) alerts))
      | inr new ↦ rw new (inr (new_alert tenant now id r c, refl, new))
    ]

resolve_disappeared-Each :
    (tenant now : ℕ) (covered : List RuleKind) (live : List Fingerprint) (locked : ℕ → Bool)
    (alerts : List Alert)
    → Each alerts (resolve_disappeared tenant now covered live locked alerts).0
unfolding resolve_disappeared
resolve_disappeared-Each tenant now [] live locked alerts = Each-refl alerts
resolve_disappeared-Each tenant now (k ∷ ks) live locked alerts =
    update-Each (has_disappeared tenant (k ∷ ks) live locked) (resolve now)
      (λ a gone. resolve-Follows now a (ground arith)) alerts

acknowledge_alert-Each :
    (now : ℕ) (caller : Option (ℕ × Option ℕ)) (id : GivenId) (alerts : List Alert)
    → Each alerts (acknowledge_alert now caller id alerts).0
unfolding acknowledge_alert
acknowledge_alert-Each now caller absent alerts = Each-refl alerts
acknowledge_alert-Each now caller malformed alerts = Each-refl alerts
acknowledge_alert-Each now none (uuid id) alerts = Each-refl alerts
acknowledge_alert-Each now (some (tenant, user)) (uuid id) alerts =
    update-Each (is_acknowledgeable tenant id) (acknowledge now user)
      (λ a h. acknowledge-Follows now user a (ground arith)) alerts

delete_alert_rule-Each :
    (tenant now : ℕ) (id : GivenId) (rules : List Rule) (alerts : List Alert)
    → Each alerts (delete_alert_rule tenant now id (rules, alerts)).0.1
unfolding delete_alert_rule
delete_alert_rule-Each tenant now absent rules alerts = Each-refl alerts
delete_alert_rule-Each tenant now malformed rules alerts = Each-refl alerts
delete_alert_rule-Each tenant now (uuid id) rules alerts =
    elim (Bool-cases (affected (is_rule tenant id) rules == 0)) [
      | inl nothing ↦ rw nothing (Each-refl alerts)
      | inr found ↦ rw found (
          let closed = update (is_opened_by tenant id) (resolve now) alerts in
          Each-trans alerts closed _
            (update-Each (is_opened_by tenant id) (resolve now)
              (λ a h. resolve-Follows now a (ground arith)) alerts)
            (update-Each (λ a. holds a.rule_id id) forget_rule (λ a _. forget_rule-Follows a)
              closed))
    ]

pub Write-Evolves : {xs ys : List Alert} → Write xs ys → Evolves xs ys
Write-Evolves (Write.upserted tenant now id r c alerts) =
    upsert_alert-Evolves tenant now id r c alerts
Write-Evolves (Write.resolved tenant now covered live locked alerts) =
    inl (resolve_disappeared-Each tenant now covered live locked alerts)
Write-Evolves (Write.acknowledged now caller id alerts) =
    inl (acknowledge_alert-Each now caller id alerts)
Write-Evolves (Write.rule_deleted tenant now id rules alerts) =
    inl (delete_alert_rule-Each tenant now id rules alerts)
