-- ===== src/Alerts/Evaluate/CalledFor.antt =====
-- The open alerts that the rules and the conditions of an estate call for, described without the pass.
use fleetward.Base.{
  exists-and, exists-append, exists-split, exists-false, exists-ext, or-both_false, or_false,
  and_no, and_mono_false, ℕ, ◌≡◌, refl, sym, ap, ◌∙◌, ◌⊎◌, inl, inr, Bool, true, false, not, ◌&&◌,
  ◌||◌, List, [], ◌∷◌, Option, none, some, String, arith, ◌==◌, Bool-cases, is_some, subst, All,
  exists,
}
use fleetward.Alerts.Vocabulary.{
  RuleKind, Fingerprint, is_among, is_kind, is_fingerprint, evaluated_kinds,
}
use fleetward.Alerts.Vocabulary.Names.{is_kind→eq}
use fleetward.Alerts.Rules.{Rule, Condition, is_about, load_enabled_rules, match_rule}
use fleetward.Alerts.Rules.Loudest.{Decides, match_rule-Decides}
use fleetward.Alerts.Evaluate.{Alert, EvaluateKind, Findings, found_more, evaluate_kinds}
use fleetward.Alerts.Evaluate.OpenSet.{has_open, is_reported}

-- What an evaluator finds is of its kind.
abbrev pub AreOf : RuleKind → String ⊎ List Condition → Type 0
AreOf k (inl failed) = Unit
AreOf k (inr found) = All (λ c. (c.kind ≡ k) × (c.fingerprint.kind ≡ k)) found

abbrev pub is_answer : String ⊎ List Condition → Bool
is_answer (inl failed) = false
is_answer (inr found) = true

module _ (tenant : ℕ) (rules : List Rule) where
  abbrev pub is_enabled_here : Rule → Bool
  is_enabled_here r = r.tenant_id == tenant && r.is_enabled

  -- Some enabled rule of the tenant is about the condition.
  abbrev pub is_wanted : Condition → Bool
  is_wanted c = exists (λ r. is_enabled_here r && is_about r c) rules

  -- Some enabled rule of the tenant is of the kind.
  abbrev pub is_watched : RuleKind → Bool
  is_watched k = exists (λ r. is_enabled_here r && is_kind r.kind k) rules

  -- The answer holds a condition of the fingerprint that some rule is about.
  abbrev pub is_found : Fingerprint → String ⊎ List Condition → Bool
  is_found f (inl failed) = false
  is_found f (inr found) = exists (λ c. is_fingerprint c.fingerprint f && is_wanted c) found

  module _ (evaluate_kind : EvaluateKind) where
    -- One of the five kinds has a condition of the fingerprint that some rule is about.
    abbrev pub is_called_for : Fingerprint → Bool
    is_called_for f =
        is_found f (evaluate_kind RuleKind.instance_down)
        || is_found f (evaluate_kind RuleKind.verification_failed)
        || is_found f (evaluate_kind RuleKind.backup_failed)
        || is_found f (evaluate_kind RuleKind.backup_missing)
        || is_found f (evaluate_kind RuleKind.retention_blocked)

    -- Nothing is known of the kind: it is none of the five, or a rule asks about it and the query for
    -- it failed.
    abbrev pub is_unknown : RuleKind → Bool
    is_unknown k =
        not (
          is_kind k RuleKind.instance_down
          || is_kind k RuleKind.verification_failed
          || is_kind k RuleKind.backup_failed
          || is_kind k RuleKind.backup_missing
          || is_kind k RuleKind.retention_blocked)
        || is_watched k && not (is_answer (evaluate_kind k))

    -- An alert is to be open after a pass if it is called for, or was open and nothing is known of it.
    abbrev pub should_be_open : List Alert → Fingerprint → Bool
    should_be_open alerts f = is_called_for f || has_open tenant f alerts && is_unknown f.kind

-- A rule decides exactly where some rule is about the condition.
match_rule-exists :
    (rules : List Rule) (c : Condition)
    → is_some (match_rule rules c) ≡ exists (λ r. is_about r c) rules
match_rule-exists rules c = conclude (match_rule rules c) (match_rule-Decides rules c)
  where
    conclude : (o : Option Rule) → Decides rules c o → is_some o ≡ exists (λ r. is_about r c) rules
    conclude none all = sym (exists-false (λ r. is_about r c) rules all)
    conclude (some r) (before, later, split, about, below, rest) = sym (
        ap (exists (λ q. is_about q c)) split
        ∙ exists-split (λ q. is_about q c) before r later about)

module _ (tenant : ℕ) (rules : List Rule) (evaluate_kind : EvaluateKind)
    (honest : (k : RuleKind) → AreOf k (evaluate_kind k)) where
  abbrev enabled : List Rule
  enabled = load_enabled_rules tenant rules

  reported_lem :
      (f : Fingerprint) (cs : List Condition)
      → is_reported enabled f cs ≡ is_found tenant rules f (inr cs)
  reported_lem f cs =
      exists-ext (λ c. is_fingerprint c.fingerprint f && is_some (match_rule enabled c)) _
        (λ c.
          ap (λ b. is_fingerprint c.fingerprint f && b)
            (match_rule-exists enabled c
              ∙ exists-and (is_enabled_here tenant rules) (λ r. is_about r c) rules))
        cs

  -- No condition of a kind that no rule asks about is wanted.
  unwatched-wanted :
      (c : Condition) (k : RuleKind) (rs : List Rule)
      → c.kind ≡ k
      → exists (λ r. is_enabled_here tenant rules r && is_kind r.kind k) rs ≡ false
      → exists (λ r. is_enabled_here tenant rules r && is_about r c) rs ≡ false
  unfolding is_about
  unwatched-wanted c k [] same none_watches = refl
  unwatched-wanted c k (r ∷ rs) same none_watches =
      let split = or-both_false _ _ none_watches in
      or_false _ _
        (and_mono_false (is_enabled_here tenant rules r) (is_kind r.kind c.kind) _
          (ap (λ j. is_enabled_here tenant rules r && is_kind r.kind j) same ∙ split.0))
        (unwatched-wanted c k rs same split.1)

  unwatched-found :
      (f : Fingerprint) (k : RuleKind) (o : String ⊎ List Condition)
      → AreOf k o
      → is_watched tenant rules k ≡ false
      → is_found tenant rules f o ≡ false
  unwatched-found f k (inl failed) of_kind none_watches = refl
  unwatched-found f k (inr []) of_kind none_watches = refl
  unwatched-found f k (inr (c ∷ cs)) of_kind none_watches =
      let e = unwatched-wanted c k rules of_kind.0.0 none_watches in
      or_false _ _
        (ap (λ b. is_fingerprint c.fingerprint f && b) e ∙ and_no (is_fingerprint c.fingerprint f))
        (unwatched-found f k (inr cs) of_kind.1 none_watches)

  -- What the evaluation of some kinds reports and covers.
  abbrev found_in : Fingerprint → List RuleKind → Bool
  found_in f = exists (λ k. is_found tenant rules f (evaluate_kind k))

  found_more-reported :
      (f : Fingerprint) (k : RuleKind) (o : String ⊎ List Condition) (found : Findings)
      → is_reported enabled f (found_more k o found).1
        ≡ (is_found tenant rules f o || is_reported enabled f found.1)
  found_more-reported f k (inl failed) found = refl
  found_more-reported f k (inr more) found =
      exists-append (λ c. is_fingerprint c.fingerprint f && is_some (match_rule enabled c)) more
        found.1
      ∙ ap (λ b. b || is_reported enabled f found.1) (reported_lem f more)

  watched_lem : (k : RuleKind) → exists (λ r. is_kind r.kind k) enabled ≡ is_watched tenant rules k
  watched_lem k = exists-and (is_enabled_here tenant rules) (λ r. is_kind r.kind k) rules

  evaluate_kinds-reported :
      (f : Fingerprint) (ks : List RuleKind)
      → is_reported enabled f (evaluate_kinds evaluate_kind enabled ks).1 ≡ found_in f ks
  unfolding evaluate_kinds
  evaluate_kinds-reported f [] = refl
  evaluate_kinds-reported f (k ∷ ks) =
      let rest = evaluate_kinds-reported f ks in
      elim (Bool-cases (exists (λ r. is_kind r.kind k) enabled)) [
        | inl wanted ↦ rw wanted (
            found_more-reported f k (evaluate_kind k) (evaluate_kinds evaluate_kind enabled ks)
            ∙ ap (λ b. is_found tenant rules f (evaluate_kind k) || b) rest)
        | inr unwanted ↦ rw unwanted (
            rest
            ∙ let e =
                unwatched-found f k (evaluate_kind k) (honest k) (sym (watched_lem k) ∙ unwanted) in
              sym (ap (λ b. b || found_in f ks) e))
      ]

  found_more-covers :
      (k j : RuleKind) (o : String ⊎ List Condition) (found : Findings)
      → is_among (found_more j o found).0 k ≡ ((is_answer o && is_kind k j) || is_among found.0 k)
  found_more-covers k j (inl failed) found = refl
  found_more-covers k j (inr more) found = refl

  abbrev CoverageOf : RuleKind → List RuleKind → Type 0
  CoverageOf k ks =
      is_among (evaluate_kinds evaluate_kind enabled ks).0 k
      ≡ (is_among ks k && not (is_watched tenant rules k && not (is_answer (evaluate_kind k))))

  evaluate_kinds-covers : (k : RuleKind) (ks : List RuleKind) → CoverageOf k ks
  unfolding evaluate_kinds
  evaluate_kinds-covers k [] = refl
  evaluate_kinds-covers k (j ∷ js) = elim (Bool-cases (is_kind k j)) [
    | inl same ↦
        let e : k ≡ j = is_kind→eq k j same in
        let own : is_kind k k ≡ true = ap (is_kind k) e ∙ same in
        subst (λ i. CoverageOf k (i ∷ js)) e
          (elim (Bool-cases (exists (λ r. is_kind r.kind k) enabled)) [
            | inl wanted ↦
                let watched = sym (watched_lem k) ∙ wanted in
                rw wanted (
                  found_more-covers k k (evaluate_kind k) (evaluate_kinds evaluate_kind enabled js)
                  ∙ ground (arith, evaluate_kinds-covers k js))
            | inr unwanted ↦
                let unwatched = sym (watched_lem k) ∙ unwanted in rw unwanted (ground arith)
          ])
    | inr apart ↦ elim (Bool-cases (exists (λ r. is_kind r.kind j) enabled)) [
      | inl wanted ↦ rw wanted (
          found_more-covers k j (evaluate_kind j) (evaluate_kinds evaluate_kind enabled js)
          ∙ ground (arith, evaluate_kinds-covers k js))
      | inr unwanted ↦ rw unwanted (ground (arith, evaluate_kinds-covers k js))
    ]
  ]

  -- After a pass, by what it reports and what it does not cover.
  pub should_be_open_lem :
      (alerts : List Alert) (f : Fingerprint)
      → let found = evaluate_kinds evaluate_kind enabled evaluated_kinds in
        (is_reported enabled f found.1 || has_open tenant f alerts && not (is_among found.0 f.kind))
        ≡ should_be_open tenant rules evaluate_kind alerts f
  should_be_open_lem alerts f = ground (
    arith,
    evaluate_kinds-reported f evaluated_kinds,
    evaluate_kinds-covers f.kind evaluated_kinds,
  )
