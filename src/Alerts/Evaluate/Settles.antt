-- ===== src/Alerts/Evaluate/Settles.antt =====
-- A whole pass, against the set of open alerts that it should leave.
use fleetward.Base.{
  ℕ, ◌≡◌, inl, inr, List, Bool-cases, All, All-append, All-update, All-true, exists,
}
use fleetward.Alerts.Rules.{Rule, Condition}
use fleetward.Alerts.Evaluate.{Alert, is_active, refresh, upsert_alert}
use fleetward.Alerts.Evaluate.OpenSet.{IsLabelled}

abbrev AreLabelled : List Condition → Type 0
AreLabelled = All (λ c. c.kind ≡ c.fingerprint.kind)

pub upsert-IsLabelled :
    (tenant now id : ℕ) (r : Rule) (c : Condition) (alerts : List Alert)
    → c.kind ≡ c.fingerprint.kind
    → IsLabelled alerts
    → IsLabelled (upsert_alert tenant now id r c alerts).0
unfolding upsert_alert
upsert-IsLabelled tenant now id r c alerts same labelled =
    elim (Bool-cases (exists (is_active tenant c.fingerprint) alerts)) [
      | inl known ↦ rw known (
          All-update (λ a. a.kind ≡ a.fingerprint.kind) (is_active tenant c.fingerprint)
            (refresh now r c) alerts (All-true _ (λ a _ h. h) alerts) labelled)
      | inr new ↦ rw new (All-append _ alerts _ labelled (same, tt))
    ]
