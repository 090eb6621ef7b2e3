-- ===== src/Alerts/Rules/Created.antt =====
-- What can be created.
use text.Mathlib.Text.{◌==◌ as str_eq}
use fleetward.Base.{
  ℕ, ◌≡◌, refl, ◌⊎◌, inl, inr, true, false, ◌&&◌, List, [], ◌∷◌, ◌++◌, Option, none, some, String,
  Bool-cases, exists,
}
use fleetward.Alerts.Vocabulary.{
  RuleKind, AlertKind, evaluated_kinds, is_among, rule_kind_string, has_evaluator,
}
use fleetward.Alerts.Rules.{
  Rule, GivenId, CreateRuleInput, AlertError, trim_space, is_given, is_malformed, nullable_uuid,
  is_named, new_rule, insert_rule, insert_of_kind, create_alert_rule,
}

-- The rule is enabled, of a kind that is evaluated, under a name that is not empty and no other rule
-- of the tenant has, for one environment, for one instance or for the tenant; and it is all that
-- was added.
abbrev pub IsWatched : List Rule → AlertError ⊎ (Rule × List Rule) → Type 0
IsWatched rules (inl why) = Unit
IsWatched rules (inr (r, rules')) =
    (rules' ≡ rules ++ r ∷ [])
    × (r.is_enabled ≡ true)
    × (is_among evaluated_kinds r.kind ≡ true)
    × (str_eq r.name "" ≡ false)
    × (exists (is_named r.tenant_id r.name) rules ≡ false)
    × ((r.environment_id ≡ none) ⊎ (r.instance_id ≡ none))

insert_rule-IsWatched :
    (answer : Option String) (r : Rule) (rules : List Rule)
    → r.is_enabled ≡ true
    → is_among evaluated_kinds r.kind ≡ true
    → str_eq r.name "" ≡ false
    → (r.environment_id ≡ none) ⊎ (r.instance_id ≡ none)
    → IsWatched rules (insert_rule answer r rules)
unfolding insert_rule
insert_rule-IsWatched (some message) r rules enabled evaluated named scope = tt
insert_rule-IsWatched none r rules enabled evaluated named scope =
    elim (Bool-cases (exists (is_named r.tenant_id r.name) rules)) [
      | inl taken ↦ rw taken tt
      | inr unused ↦ rw unused (refl, enabled, evaluated, named, unused, scope)
    ]

one_scope :
    (environment_id instance_id : GivenId)
    → (is_given environment_id && is_given instance_id) ≡ false
    → (nullable_uuid environment_id ≡ none) ⊎ (nullable_uuid instance_id ≡ none)
one_scope GivenId.absent i h = inl refl
one_scope GivenId.malformed i h = inl refl
one_scope (GivenId.uuid e) GivenId.absent h = inr refl
one_scope (GivenId.uuid e) GivenId.malformed h = inr refl
one_scope (GivenId.uuid e) (GivenId.uuid i) h = absurd (cc)

evaluated_kind :
    (k : AlertKind) (kind : RuleKind)
    → rule_kind_string k ≡ some kind
    → has_evaluator k ≡ true
    → is_among evaluated_kinds kind ≡ true
unfolding has_evaluator
evaluated_kind k kind e h = rw (e, has_evaluator) at h

insert_of_kind-IsWatched :
    (answer : Option String) (tenant id now : ℕ) (input : CreateRuleInput) (rules : List Rule)
    (o : Option RuleKind)
    → rule_kind_string input.kind ≡ o
    → str_eq (trim_space input.name) "" ≡ false
    → IsWatched rules (insert_of_kind answer tenant id now input rules o)
insert_of_kind-IsWatched answer tenant id now input rules none e named = tt
insert_of_kind-IsWatched answer tenant id now input rules (some kind) e named =
    elim (Bool-cases (has_evaluator input.kind)) [
      | inr unevaluated ↦ rw unevaluated tt
      | inl evaluated ↦
          rw evaluated
            (elim (Bool-cases (is_given input.environment_id && is_given input.instance_id)) [
              | inl both ↦ rw both tt
              | inr one ↦ rw one (elim (Bool-cases (is_malformed input.environment_id)) [
                | inl bad ↦ rw bad tt
                | inr good ↦ rw good (elim (Bool-cases (is_malformed input.instance_id)) [
                  | inl bad ↦ rw bad tt
                  | inr good ↦ rw good (
                      insert_rule-IsWatched answer
                        (new_rule tenant id now (trim_space input.name) kind input) rules refl
                        (evaluated_kind input.kind kind e evaluated) named
                        (one_scope input.environment_id input.instance_id one))
                ])
              ])
            ])
    ]

-- Whatever a request holds and whatever the database answers, a rule that is created is one that
-- the next pass evaluates: it is enabled, of a kind with an evaluator, under a name that is not
-- empty once it is trimmed and is new in the tenant, and it has at most one scope. Nothing else is
-- added to the table.
pub create_alert_rule-IsWatched :
    (answer : Option String) (tenant id now : ℕ) (input : CreateRuleInput) (rules : List Rule)
    → IsWatched rules (create_alert_rule answer tenant id now input rules)
unfolding create_alert_rule
create_alert_rule-IsWatched answer tenant id now input rules =
    elim (Bool-cases (str_eq (trim_space input.name) "")) [
      | inl blank ↦ rw blank tt
      | inr named ↦ rw named (
          insert_of_kind-IsWatched answer tenant id now input rules (rule_kind_string input.kind)
            refl named)
    ]
