-- ===== src/Authz/Guard/Monotone.antt =====
-- A further grant never takes a permission away.
use text.Mathlib.Text.{◌==◌ as str_eq}
use fleetward.Base.{
  ℕ, ◌≡◌, refl, sym, ◌∙◌, inl, inr, Bool, true, false, not, ◌&&◌, ◌||◌, List, ◌∷◌, Option, none,
  some, String, arith, Bool-cases,
}
use fleetward.Authz.Principal.{Grant, is_tenant_wide, Principal, is_authenticated, is_trusted}
use fleetward.Authz.Scope.{
  Rule, Scope, is_tenant_scope, Lookup, found, unresolvable, failed, Directory, Request, Resolution,
  resolved, no_such_resource, lookup_failed, resolve_scope,
}
use fleetward.Authz.Guard.{
  suffices, best_rank, holds_environment_grant, covers_scope, covers_environment, check_within,
  check_estate, check_resolved, check_grants, check_ranked, check_rule, check,
}
use fleetward.Authz.Guard.Ranks.{grants_rank, suffices-best_rank}
use fleetward.Authz.Guard.Additive.{environment_grants, check_within-allowed, check_grants-allowed}

or_mono :
    (a b a' b' : Bool)
    → (a ≡ true → a' ≡ true)
    → (b ≡ true → b' ≡ true)
    → (a || b) ≡ true
    → (a' || b') ≡ true
or_mono true b a' b' f g h = rw (f refl) refl
or_mono false b a' b' f g h = ground (arith, g h)

and_mono :
    (a b a' b' : Bool)
    → (a ≡ true → a' ≡ true)
    → (b ≡ true → b' ≡ true)
    → (a && b) ≡ true
    → (a' && b') ≡ true
and_mono true b a' b' f g h = rw (f refl) (g h)
and_mono false b a' b' f g h = absurd (cc)

-- One more grant in the list.
more :
    (required : ℕ) (matching : Grant → Bool) (g : Grant) (gs : List Grant)
    → grants_rank required matching gs ≡ true
    → grants_rank required matching (g ∷ gs) ≡ true
more required matching g gs h = ground arith

more_environments :
    (required : ℕ) (g : Grant) (gs : List Grant) (l : Lookup)
    → environment_grants required gs l ≡ true
    → environment_grants required (g ∷ gs) l ≡ true
more_environments required g gs (found e) h = more required (covers_environment e) g gs h
more_environments required g gs unresolvable h = h
more_environments required g gs (failed why) h = h

module _ (dir : Directory) (rule : Rule) (required : ℕ) (g : Grant) (gs : List Grant) where
  more_suffices :
      (matching : Grant → Bool)
      → suffices (best_rank matching gs) required ≡ true
      → suffices (best_rank matching (g ∷ gs)) required ≡ true
  more_suffices matching h =
      suffices-best_rank matching (g ∷ gs) required
      ∙ more required matching g gs (sym (suffices-best_rank matching gs required) ∙ h)

  estate_more :
      (scope : Scope)
      → (check_estate dir rule gs required scope).0.allowed ≡ true
      → (check_estate dir rule (g ∷ gs) required scope).0.allowed ≡ true
  unfolding check_estate
  estate_more scope h =
      elim (Bool-cases (rule.scope_filtered && suffices (best_rank (λ g. true) gs) required)) [
        | inl allowed ↦
            let e : (rule.scope_filtered && suffices (best_rank (λ g. true) (g ∷ gs)) required)
                ≡ true =
              and_mono rule.scope_filtered (suffices (best_rank (λ g. true) gs) required)
                rule.scope_filtered (suffices (best_rank (λ g. true) (g ∷ gs)) required) (λ k. k)
                (more_suffices (λ g. true)) allowed in
            rw e
        | inr refused ↦ let e : false ≡ true = rw refused at h in absurd (cc)
      ]

  within_more :
      (scope : Scope)
      → (check_within dir rule gs required scope (best_rank is_tenant_wide gs)).0.allowed ≡ true
      → (check_within dir rule
          (g ∷ gs)
          required
          scope
          (best_rank is_tenant_wide (g ∷ gs))).0.allowed
        ≡ true
  within_more scope h =
      check_within-allowed dir rule (g ∷ gs) required scope (best_rank is_tenant_wide (g ∷ gs))
      ∙ or_mono _ _ _ _
          (or_mono _ _ _ _ (more required (covers_scope scope) g gs) (more_suffices is_tenant_wide))
          (and_mono _ _ _ _
            (and_mono (not (str_eq scope.instance_id "")) (holds_environment_grant gs) _
              (holds_environment_grant (g ∷ gs)) (λ k. k) (λ k. ground arith))
            (more_environments required g gs (dir.environment_of scope.instance_id)))
          (sym (check_within-allowed dir rule gs required scope (best_rank is_tenant_wide gs)) ∙ h)

  resolved_more :
      (r : Resolution)
      → (check_resolved dir rule gs required (best_rank is_tenant_wide gs) r).0.allowed ≡ true
      → (check_resolved dir rule (g ∷ gs) required (best_rank is_tenant_wide (g ∷ gs)) r).0.allowed
        ≡ true
  resolved_more (resolved scope) h = elim (Bool-cases (is_tenant_scope scope)) [
    | inl estate ↦ rw estate (estate_more scope (rw estate at h))
    | inr part ↦ rw part (within_more scope (rw part at h))
  ]
  resolved_more no_such_resource h = h
  resolved_more (lookup_failed why) h = h

  grants_more :
      (req : Request)
      → (check_grants dir rule gs required req).0.allowed ≡ true
      → (check_grants dir rule (g ∷ gs) required req).0.allowed ≡ true
  grants_more req h =
      check_grants-allowed dir rule (g ∷ gs) required req
      ∙ or_mono _ _ _ _ (more required is_tenant_wide g gs)
          (resolved_more (resolve_scope dir rule.scope req))
          (sym (check_grants-allowed dir rule gs required req) ∙ h)

module _ (policies : String → Option Rule) (ranks : String → Option ℕ) (dir : Directory) where
  ranked_more :
      (rule : Rule) (g : Grant) (gs : List Grant) (req : Request) (o : Option ℕ)
      → (check_ranked policies ranks dir rule gs req o).0.allowed ≡ true
      → (check_ranked policies ranks dir rule (g ∷ gs) req o).0.allowed ≡ true
  ranked_more rule g gs req none h = h
  ranked_more rule g gs req (some required) h = grants_more dir rule required g gs req h

  rule_more :
      (p : Principal) (g : Grant) (req : Request) (o : Option Rule)
      → (check_rule policies ranks dir p req o).0.allowed ≡ true
      → (check_rule policies ranks dir (record p { grants = g ∷ p.grants }) req o).0.allowed ≡ true
  unfolding check_rule
  rule_more p g req none h = h
  rule_more p g req (some rule) h = elim (Bool-cases (is_trusted p.kind)) [
    | inl trusted ↦ simp trusted
    | inr untrusted ↦ elim (Bool-cases rule.any_authenticated) [
      | inl any ↦ simp (untrusted, any)
      | inr ranked ↦
          simp (untrusted, ranked)
            (ranked_more rule g p.grants req (ranks rule.min_role) (simp (untrusted, ranked) at h))
    ]
  ]

  -- Whatever the request and whatever the database answers, who may make it may still make it with
  -- one grant more.
  pub more_grants_allow :
      (p : Principal) (g : Grant) (method : String) (req : Request)
      → (check policies ranks dir (some p) method req).0.allowed ≡ true
      → (check policies ranks dir (some (record p { grants = g ∷ p.grants })) method req).0.allowed
        ≡ true
  unfolding check
  more_grants_allow p g method req h = elim (Bool-cases (is_authenticated p)) [
    | inl somebody ↦ simp somebody (rule_more p g req (policies method) (simp somebody at h))
    | inr nobody ↦ let e : false ≡ true = simp nobody at h in absurd (cc)
  ]
