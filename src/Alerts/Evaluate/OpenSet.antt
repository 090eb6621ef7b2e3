-- ===== src/Alerts/Evaluate/OpenSet.antt =====
-- What a pass does to the set of open alerts.
use fleetward.Base.{
  exists-append, ℕ, ◌≡◌, refl, ap, ◌∙◌, ◌⊎◌, inl, inr, Bool, true, false, not, ◌&&◌, ◌||◌, List, [],
  ◌∷◌, Option, none, some, arith, if◌then◌else◌, Bool-cases, is_some, subst, All, exists, update,
}
use fleetward.Alerts.Vocabulary.{RuleKind, Fingerprint, is_among, is_fingerprint}
use fleetward.Alerts.Vocabulary.Names.{is_fingerprint→eq, is_fingerprint_sym}
use fleetward.Alerts.Rules.{Rule, Condition, match_rule}
use fleetward.Alerts.Evaluate.{
  Alert, is_active, refresh, new_alert, upsert_alert, has_disappeared, resolve, is_live, Answers,
  Pass, announce, record_by, record_all,
}

-- Whether a tenant has an open alert of a fingerprint.
abbrev pub has_open : ℕ → Fingerprint → List Alert → Bool
has_open tenant f = exists (is_active tenant f)

-- The label of an alert is the kind of its fingerprint.
abbrev pub IsLabelled : List Alert → Type 0
IsLabelled = All (λ a. a.kind ≡ a.fingerprint.kind)

abbrev pub AreLabelled : List Condition → Type 0
AreLabelled = All (λ c. c.kind ≡ c.fingerprint.kind)

-- Whether a condition of the fingerprint was found that some rule asks about.
abbrev pub is_reported : List Rule → Fingerprint → List Condition → Bool
is_reported rules f = exists (λ c. is_fingerprint c.fingerprint f && is_some (match_rule rules c))

abbrev pub listed : Fingerprint → List Fingerprint → Bool
listed f = exists (is_fingerprint f)

exists-update :
    (q p : Alert → Bool) (g : Alert → Alert)
    → ((a : Alert) → q (g a) ≡ q a)
    → (xs : List Alert) → exists q (update p g xs) ≡ exists q xs
unfolding update
exists-update q p g same [] = refl
exists-update q p g same (x ∷ xs) = ground (arith, same x, exists-update q p g same xs)

module _ (tenant now : ℕ) (f : Fingerprint) where
  upsert-has_open :
      (id : ℕ) (r : Rule) (c : Condition) (alerts : List Alert)
      → has_open tenant f (upsert_alert tenant now id r c alerts).0
        ≡ (has_open tenant f alerts || is_fingerprint c.fingerprint f)
  unfolding upsert_alert is_active
  upsert-has_open id r c alerts = elim (Bool-cases (has_open tenant c.fingerprint alerts)) [
    | inl known ↦ rw known (
        exists-update (is_active tenant f) (is_active tenant c.fingerprint) (refresh now r c)
          (λ a. still a) alerts
        ∙ already known (Bool-cases (is_fingerprint c.fingerprint f)))
    | inr new ↦ rw new (
        exists-append (is_active tenant f) alerts (new_alert tenant now id r c ∷ [])
        ∙ ap (λ b. has_open tenant f alerts || b) first)
  ]
    where
      still : (a : Alert) → is_active tenant f (refresh now r c a) ≡ is_active tenant f a
      still a = refl

      already :
          has_open tenant c.fingerprint alerts ≡ true
          → (is_fingerprint c.fingerprint f ≡ true) ⊎ (is_fingerprint c.fingerprint f ≡ false)
          → has_open tenant f alerts ≡ (has_open tenant f alerts || is_fingerprint c.fingerprint f)
      already known (inl same) =
          let open' =
            subst (λ g. has_open tenant g alerts ≡ true) (is_fingerprint→eq _ _ same) known in
          ground arith
      already known (inr other) = ground arith

      first : has_open tenant f (new_alert tenant now id r c ∷ []) ≡ is_fingerprint c.fingerprint f
      first = ground arith

-- A database that takes every statement, and locks no row.
abbrev pub Works : Answers → Type 0
Works db =
    (db.rules_error ≡ none)
    × ((f : Fingerprint) → db.upsert_error f ≡ none)
    × (db.resolve_error ≡ none)
    × ((id : ℕ) → db.locked id ≡ false)

module _ (db : Answers) (tenant now : ℕ) (works : Works db) where
  pub announced :
      (r : Rule) (c : Condition) (p : Pass) (u : List Alert × Bool)
      → ((announce db tenant now r c p u).alerts ≡ u.0)
        × ((announce db tenant now r c p u).live ≡ p.live)
  announced r c p (alerts, false) = (refl, refl)
  announced r c p (alerts, true) = (refl, refl)

  module _ (f : Fingerprint) where
    -- What a condition adds to the open alerts and to the live fingerprints.
    abbrev Adds : Bool → Pass → Pass → Type 0
    Adds b p p' =
        (has_open tenant f p'.alerts ≡ (has_open tenant f p.alerts || b))
        × (listed f p'.live ≡ (listed f p.live || b))

    record_by-Adds :
        (o : Option Rule) (c : Condition) (p : Pass)
        → Adds (is_fingerprint c.fingerprint f && is_some o) p (record_by db tenant now o c p)
    record_by-Adds none c p = (ground arith, ground arith)
    record_by-Adds (some r) c p =
        let q : Pass = record p { live = c.fingerprint ∷ p.live } in
        let u = upsert_alert tenant now (db.new_id c.fingerprint) r c p.alerts in
        let a = announced r c q u in
        rw (works.1 c.fingerprint) (
          ap (has_open tenant f) a.0
              ∙ upsert-has_open tenant now f (db.new_id c.fingerprint) r c p.alerts
              ∙ ground arith,
          ap (listed f) a.1 ∙ ground (arith, is_fingerprint_sym f c.fingerprint),
        )

    pub record_all-Adds :
        (rules : List Rule) (cs : List Condition) (p : Pass)
        → Adds (is_reported rules f cs) p (record_all db tenant now rules cs p)
    unfolding record_all
    record_all-Adds rules [] p = (ground arith, ground arith)
    record_all-Adds rules (c ∷ cs) p =
        let q = record_by db tenant now (match_rule rules c) c p in
        let one = record_by-Adds (match_rule rules c) c p in
        let more = record_all-Adds rules cs q in (ground arith, ground arith)

    resolved_row :
        (covered : List RuleKind) (live : List Fingerprint) (a : Alert)
        → a.kind ≡ a.fingerprint.kind
        → is_active tenant f
            (if has_disappeared tenant covered live db.locked a then resolve now a else a)
          ≡ (is_active tenant f a && not (is_among covered f.kind && not (listed f live)))
    unfolding is_active
    resolved_row covered live a labelled = elim (Bool-cases (is_active tenant f a)) [
      | inr inactive ↦ ground (arith, inactive)
      | inl active ↦
          let e : a.fingerprint ≡ f = is_fingerprint→eq a.fingerprint f (ground (arith, active)) in
          let covers : is_among covered a.kind ≡ is_among covered f.kind =
            ap (is_among covered) (labelled ∙ ap (λ g. g.kind) e) in
          let lives : is_live live a ≡ listed f live = ap (λ g. listed g live) e in
          let gone : has_disappeared tenant covered live db.locked a
              ≡ (is_among covered f.kind && not (listed f live)) =
            ground (arith, active, covers, lives, works.3 a.id) in
          rw gone (after (is_among covered f.kind && not (listed f live)) active)
    ]
      where
        after :
            (b : Bool)
            → is_active tenant f a ≡ true
            → is_active tenant f (if b then resolve now a else a) ≡ (is_active tenant f a && not b)
        after true active = ground arith
        after false active = ground arith

    pub resolved-has_open :
        (covered : List RuleKind) (live : List Fingerprint) (alerts : List Alert)
        → IsLabelled alerts
        → has_open tenant f
            (update (has_disappeared tenant covered live db.locked) (resolve now) alerts)
          ≡ (has_open tenant f alerts && not (is_among covered f.kind && not (listed f live)))
    unfolding update
    resolved-has_open covered live [] labelled = refl
    resolved-has_open covered live (a ∷ as') labelled = ground (
      arith,
      resolved_row covered live a labelled.0,
      resolved-has_open covered live as' labelled.1,
    )
