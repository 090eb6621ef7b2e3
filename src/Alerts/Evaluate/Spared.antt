-- ===== src/Alerts/Evaluate/Spared.antt =====
-- What a pass does to the alerts of a kind that it does not cover and has no condition of.
use fleetward.Base.{
  ℕ, ◌≡◌, refl, sym, ap, ◌∙◌, inl, inr, Bool, true, false, List, [], ◌∷◌, ◌++◌, Option, none, some,
  String, arith, if◌then◌else◌, Bool-cases, All, All-true, All-append, All-map, exists, where_rows,
  update, map,
}
use mathlib.Core.List.{append-nil}
use fleetward.Alerts.Vocabulary.{RuleKind, Fingerprint, is_among, is_kind, is_fingerprint}
use fleetward.Alerts.Vocabulary.Names.{is_kind→eq, is_fingerprint→eq}
use fleetward.Alerts.Rules.{Rule, Condition, match_rule}
use fleetward.Alerts.Evaluate.{
  Alert, is_active, refresh, new_alert, upsert_alert, has_disappeared, resolve, resolution, Message,
  resolve_disappeared, Answers, Pass, announce, record_matched, record_by, record_all,
}
use fleetward.Alerts.Evaluate.OpenSet.{IsLabelled}
use fleetward.Alerts.Evaluate.Settles.{upsert-IsLabelled}

abbrev pub alerts_of : RuleKind → List Alert → List Alert
alerts_of k = where_rows (λ a. is_kind a.kind k)

-- No message is about the kind.
abbrev pub AreSilent : RuleKind → List Message → Type 0
AreSilent k = All (λ m. is_kind m.kind k ≡ false)

module _ (k : RuleKind) where
  abbrev Spares : Alert → Bool → Type 0
  Spares a b = is_kind a.kind k ≡ true → b ≡ false

  -- An update that spares the rows of a kind, and keeps the kind of the others.
  update-alerts_of :
      (p : Alert → Bool) (g : Alert → Alert)
      → ((a : Alert) → (g a).kind ≡ a.kind)
      → (xs : List Alert) → All (λ a. Spares a (p a)) xs
      → alerts_of k (update p g xs) ≡ alerts_of k xs
  unfolding update
  update-alerts_of p g same [] h = refl
  update-alerts_of p g same (x ∷ xs) h =
      ground (arith, same x, h.0, update-alerts_of p g same xs h.1)

  append-alerts_of :
      (xs ys : List Alert) → alerts_of k (xs ++ ys) ≡ alerts_of k xs ++ alerts_of k ys
  append-alerts_of [] ys = refl
  append-alerts_of (x ∷ xs) ys = ground (arith, append-alerts_of xs ys)

  abbrev pub IsOther : Condition → Type 0
  IsOther c = (c.kind ≡ c.fingerprint.kind) × (is_kind c.kind k ≡ false)

  active-Spares :
      (tenant : ℕ) (c : Condition) (a : Alert)
      → IsOther c
      → a.kind ≡ a.fingerprint.kind
      → Spares a (is_active tenant c.fingerprint a)
  unfolding is_active
  active-Spares tenant c a other labelled of_kind =
      elim (Bool-cases (is_fingerprint a.fingerprint c.fingerprint)) [
        | inr apart ↦ ground arith
        | inl same ↦
            let e : c.kind ≡ a.kind =
              other.0
              ∙ sym (ap (λ f. f.kind) (is_fingerprint→eq a.fingerprint c.fingerprint same))
              ∙ sym labelled in
            let of_kind' : is_kind c.kind k ≡ true = ap (λ j. is_kind j k) e ∙ of_kind in
            absurd (ground arith)
      ]

  upsert-alerts_of :
      (tenant now id : ℕ) (r : Rule) (c : Condition) (alerts : List Alert)
      → IsOther c
      → IsLabelled alerts
      → alerts_of k (upsert_alert tenant now id r c alerts).0 ≡ alerts_of k alerts
  unfolding upsert_alert
  upsert-alerts_of tenant now id r c alerts other labelled =
      elim (Bool-cases (exists (is_active tenant c.fingerprint) alerts)) [
        | inl known ↦ rw known (
            update-alerts_of (is_active tenant c.fingerprint) (refresh now r c) (λ a. refl) alerts
              (All-map (λ a h. active-Spares tenant c a other h) alerts labelled))
        | inr new ↦ rw new (
            append-alerts_of alerts (new_alert tenant now id r c ∷ [])
            ∙ ap (λ b. alerts_of k alerts ++ (if b then new_alert tenant now id r c ∷ [] else []))
                other.1
            ∙ append-nil (alerts_of k alerts))
      ]

  module _ (db : Answers) (tenant now : ℕ) (start : List Alert) where
    abbrev pub IsKept : Pass → Type 0
    IsKept p = IsLabelled p.alerts × (alerts_of k p.alerts ≡ alerts_of k start) × AreSilent k p.sent

    announce-IsKept :
        (r : Rule) (c : Condition) (p : Pass) (u : List Alert × Bool)
        → IsLabelled u.0
        → alerts_of k u.0 ≡ alerts_of k start
        → is_kind c.kind k ≡ false
        → AreSilent k p.sent
        → IsKept (announce db tenant now r c p u)
    announce-IsKept r c p (alerts, false) labelled same other silent = (labelled, same, silent)
    announce-IsKept r c p (alerts, true) labelled same other silent =
        (labelled, same, All-append _ p.sent _ silent (other, tt))

    record_matched-IsKept :
        (r : Rule) (c : Condition) (p : Pass) (o : Option String)
        → IsOther c
        → IsKept p
        → IsKept (record_matched db tenant now r c p o)
    record_matched-IsKept r c p (some failed) other kept = kept
    record_matched-IsKept r c p none other kept =
        let id = db.new_id c.fingerprint in
        announce-IsKept r c (record p { live = c.fingerprint ∷ p.live })
          (upsert_alert tenant now id r c p.alerts)
          (upsert-IsLabelled tenant now id r c p.alerts other.0 kept.0)
          (upsert-alerts_of tenant now id r c p.alerts other kept.0 ∙ kept.1) other.1 kept.2

    record_by-IsKept :
        (o : Option Rule) (c : Condition) (p : Pass)
        → IsOther c
        → IsKept p
        → IsKept (record_by db tenant now o c p)
    record_by-IsKept none c p other kept = kept
    record_by-IsKept (some r) c p other kept =
        record_matched-IsKept r c p (db.upsert_error c.fingerprint) other kept

    pub record_all-IsKept :
        (rules : List Rule) (cs : List Condition) (p : Pass)
        → All IsOther cs
        → IsKept p
        → IsKept (record_all db tenant now rules cs p)
    unfolding record_all
    record_all-IsKept rules [] p others kept = kept
    record_all-IsKept rules (c ∷ cs) p others kept =
        record_all-IsKept rules cs (record_by db tenant now (match_rule rules c) c p) others.1
          (record_by-IsKept (match_rule rules c) c p others.0 kept)

    disappeared-Spares :
        (covered : List RuleKind) (live : List Fingerprint) (a : Alert)
        → is_among covered k ≡ false
        → Spares a (has_disappeared tenant covered live db.locked a)
    disappeared-Spares covered live a out of_kind =
        let out' : is_among covered a.kind ≡ false =
          ap (is_among covered) (is_kind→eq a.kind k of_kind) ∙ out in
        ground arith

    pub resolved-alerts_of :
        (covered : List RuleKind) (live : List Fingerprint) (alerts : List Alert)
        → is_among covered k ≡ false
        → alerts_of k (resolve_disappeared tenant now covered live db.locked alerts).0
          ≡ alerts_of k alerts
    unfolding resolve_disappeared
    resolved-alerts_of [] live alerts out = refl
    resolved-alerts_of (j ∷ js) live alerts out =
        update-alerts_of (has_disappeared tenant (j ∷ js) live db.locked) (resolve now) (λ a. refl)
          alerts (All-true _ (λ a of_kind. disappeared-Spares (j ∷ js) live a out of_kind) alerts)

    resolutions-AreSilent :
        (p : Alert → Bool) (alerts : List Alert)
        → All (λ a. Spares a (p a)) alerts
        → AreSilent k (map (resolution now) (where_rows p alerts))
    resolutions-AreSilent p [] spared = tt
    resolutions-AreSilent p (a ∷ as') spared = elim (Bool-cases (p a)) [
      | inl gone ↦ rw gone (let h = spared.0 in ground arith, resolutions-AreSilent p as' spared.1)
      | inr left ↦ rw left (resolutions-AreSilent p as' spared.1)
    ]

    pub resolved-AreSilent :
        (covered : List RuleKind) (live : List Fingerprint) (alerts : List Alert)
        → is_among covered k ≡ false
        → AreSilent k (resolve_disappeared tenant now covered live db.locked alerts).1
    unfolding resolve_disappeared
    resolved-AreSilent [] live alerts out = tt
    resolved-AreSilent (j ∷ js) live alerts out =
        resolutions-AreSilent (has_disappeared tenant (j ∷ js) live db.locked) alerts
          (All-true _ (λ a of_kind. disappeared-Spares (j ∷ js) live a out of_kind) alerts)
