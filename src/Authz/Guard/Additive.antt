-- ===== src/Authz/Guard/Additive.antt =====
-- Grants are additive: what the guard allows is what some grant covers at the required rank.
use text.Mathlib.Text.{◌==◌ as str_eq}
use fleetward.Base.{
  ℕ, ◌≡◌, refl, sym, ap, ◌∙◌, inl, inr, Bool, true, false, not, ◌&&◌, ◌||◌, List, [], ◌∷◌, Option,
  some, String, arith, leb, Bool-cases, ℤ,
}
use fleetward.Authz.Principal.{PrincipalKind, Grant, is_tenant_wide, Principal}
use fleetward.Authz.Scope.{
  Rule, Scope, is_tenant_scope, Lookup, found, unresolvable, failed, Directory, Request, resolved,
  resolve_scope,
}
use fleetward.Authz.Guard.{
  suffices, greater, best_rank, holds_environment_grant, covers_scope, covers_environment, judged,
  with_environment, check_within, check_resolved, check_grants, check_rule, check,
}
use fleetward.Authz.Guard.Ranks.{grants_rank, suffices-best_rank, suffices-greater}

-- What the environment of the named instance adds.
abbrev pub environment_grants : ℕ → List Grant → Lookup → Bool
environment_grants required grants (found e) = grants_rank required (covers_environment e) grants
environment_grants required grants unresolvable = false
environment_grants required grants (failed why) = false

module _ (dir : Directory) (rule : Rule) (grants : List Grant) (required : ℕ) where
  judged-allowed :
      (scope : Scope) (best : ℤ)
      → (judged dir rule grants required scope best).0.allowed ≡ suffices best required
  unfolding judged
  judged-allowed scope best = elim (Bool-cases (suffices best required)) [
    | inl enough ↦ rw enough
    | inr too_low ↦ rw too_low
  ]

  with_environment-allowed :
      (scope : Scope) (best : ℤ) (l : Lookup)
      → suffices best required ≡ false
      → (with_environment dir rule grants required scope best l).0.allowed
        ≡ environment_grants required grants l
  with_environment-allowed scope best (found e) low =
      judged-allowed (record scope { environment_id = e })
        (greater (best_rank (covers_environment e) grants) best)
      ∙ ground (
        arith,
        suffices-greater (best_rank (covers_environment e) grants) best required,
        suffices-best_rank (covers_environment e) grants required,
      )
  with_environment-allowed scope best unresolvable low = refl
  with_environment-allowed scope best (failed why) low = refl

  -- A request about a part of the estate, by the grants that count for it.
  pub check_within-allowed :
      (scope : Scope) (best : ℤ)
      → let near = grants_rank required (covers_scope scope) grants || suffices best required in
        (check_within dir rule grants required scope best).0.allowed ≡ (
          near
          || (not (str_eq scope.instance_id "")
              && holds_environment_grant grants
              && environment_grants required grants (dir.environment_of scope.instance_id)))
  unfolding check_within
  check_within-allowed scope best =
      let near = greater (best_rank (covers_scope scope) grants) best in
      let e : suffices near required
          ≡ (grants_rank required (covers_scope scope) grants || suffices best required) =
        ground (
          arith,
          suffices-greater (best_rank (covers_scope scope) grants) best required,
          suffices-best_rank (covers_scope scope) grants required,
        ) in
      elim (Bool-cases (
        not (suffices near required)
        && not (str_eq scope.instance_id "")
        && holds_environment_grant grants)) [
          | inl asks ↦ rw asks (
              with_environment-allowed scope near (dir.environment_of scope.instance_id)
                (ground arith)
              ∙ ground arith)
          | inr settled ↦ rw settled (judged-allowed scope near ∙ ground arith)
        ]

  pub check_grants-allowed :
      (req : Request)
      → (check_grants dir rule grants required req).0.allowed ≡ (
          grants_rank required is_tenant_wide grants
          || (check_resolved dir rule grants required
              (best_rank is_tenant_wide grants)
              (resolve_scope dir rule.scope req)).0.allowed)
  unfolding check_grants
  check_grants-allowed req =
      let e = suffices-best_rank is_tenant_wide grants required in
      elim (Bool-cases (suffices (best_rank is_tenant_wide grants) required)) [
        | inl enough ↦ rw enough (ground arith)
        | inr too_low ↦ rw too_low (ground arith)
      ]

-- A grant covers a part of the estate when it is tenant-wide, names that instance or environment, or
-- names the environment that the instance is in.
abbrev pub covers : Scope → String → Grant → Bool
covers scope environment_id g =
    is_tenant_wide g
    || covers_scope scope g
    || (not (str_eq scope.instance_id "") && covers_environment environment_id g)

or_split :
    (a b c l x y z : Bool)
    → (((a || b || c) && l) || (x || y || z))
      ≡ (((a && l) || x) || ((b && l) || y) || ((c && l) || z))
or_split a b c l x y z = ground arith

grants_rank-or :
    (required : ℕ) (f g h : Grant → Bool) (gs : List Grant)
    → grants_rank required (λ x. f x || g x || h x) gs
      ≡ (grants_rank required f gs || grants_rank required g gs || grants_rank required h gs)
grants_rank-or required f g h [] = refl
grants_rank-or required f g h (x ∷ gs) =
    ap (λ t. ((f x || g x || h x) && leb required x.rank) || t) (grants_rank-or required f g h gs)
    ∙ or_split (f x) (g x) (h x) (leb required x.rank) _ _ _

grants_rank-and :
    (required : ℕ) (b : Bool) (f : Grant → Bool) (gs : List Grant)
    → grants_rank required (λ x. b && f x) gs ≡ (b && grants_rank required f gs)
grants_rank-and required true f gs = refl
grants_rank-and required false f [] = refl
grants_rank-and required false f (g ∷ gs) = grants_rank-and required false f gs

covers-split :
    (required : ℕ) (scope : Scope) (e : String) (gs : List Grant)
    → grants_rank required (covers scope e) gs ≡ (
        grants_rank required is_tenant_wide gs
        || grants_rank required (covers_scope scope) gs
        || (not (str_eq scope.instance_id "") && grants_rank required (covers_environment e) gs))
covers-split required scope e gs =
    grants_rank-or required is_tenant_wide (covers_scope scope)
      (λ g. not (str_eq scope.instance_id "") && covers_environment e g) gs
    ∙ ap
        (λ t.
          grants_rank required is_tenant_wide gs
          || grants_rank required (covers_scope scope) gs
          || t)
        (grants_rank-and required (not (str_eq scope.instance_id "")) (covers_environment e) gs)

-- Who names no environment is not covered by one.
no_environment_grant :
    (required : ℕ) (e : String) (gs : List Grant)
    → holds_environment_grant gs ≡ false
    → grants_rank required (covers_environment e) gs ≡ false
no_environment_grant required e [] h = refl
no_environment_grant required e (g ∷ gs) h = ground (arith, no_environment_grant required e gs)

settle_near :
    (wide near best named environment e : Bool)
    → best ≡ wide
    → (environment ≡ false → e ≡ false)
    → (wide || ((near || best) || (named && environment && e))) ≡ (wide || near || (named && e))
settle_near wide near best named true e h k = ground arith
settle_near wide near best named false e h k = rw (k refl) (ground arith)

module _ (policies : String → Option Rule) (ranks : String → Option ℕ) (dir : Directory) where
  check_user :
      (p : Principal) (method : String) (req : Request) (rule : Rule) (required : ℕ)
      → p.kind ≡ PrincipalKind.user
      → policies method ≡ some rule
      → rule.any_authenticated ≡ false
      → ranks rule.min_role ≡ some required
      → check policies ranks dir (some p) method req ≡ check_grants dir rule p.grants required req
  unfolding check check_rule
  check_user p method req rule required user policy not_any rank =
      simp (user, policy, not_any, rank)

  -- For a method with a policy that asks for a known role, and a request that resolves to a part
  -- of the estate in a known environment: a person may make it exactly when one of their grants
  -- covers that part with a rank that is high enough. So the highest of the grants that cover it
  -- counts, and none takes anything away.
  pub allowed_when_covered :
      (p : Principal) (method : String) (req : Request) (rule : Rule) (required : ℕ) (scope : Scope)
      (environment_id : String)
      → p.kind ≡ PrincipalKind.user
      → policies method ≡ some rule
      → rule.any_authenticated ≡ false
      → ranks rule.min_role ≡ some required
      → resolve_scope dir rule.scope req ≡ resolved scope
      → is_tenant_scope scope ≡ false
      → dir.environment_of scope.instance_id ≡ found environment_id
      → (check policies ranks dir (some p) method req).0.allowed
        ≡ grants_rank required (covers scope environment_id) p.grants
  allowed_when_covered p method req rule required scope environment_id user policy not_any rank at
        part env =
      ap (λ v. v.0.allowed) (check_user p method req rule required user policy not_any rank)
      ∙ check_grants-allowed dir rule p.grants required req
      ∙ ap
          (λ r.
            grants_rank required is_tenant_wide p.grants
            || (check_resolved dir rule p.grants required (best_rank is_tenant_wide p.grants)
                r).0.allowed)
          at
      ∙ rw part (
          ap (λ t. grants_rank required is_tenant_wide p.grants || t)
            (check_within-allowed dir rule p.grants required scope
              (best_rank is_tenant_wide p.grants))
          ∙ rw env (
              settle_near (grants_rank required is_tenant_wide p.grants)
                (grants_rank required (covers_scope scope) p.grants)
                (suffices (best_rank is_tenant_wide p.grants) required)
                (not (str_eq scope.instance_id "")) (holds_environment_grant p.grants)
                (grants_rank required (covers_environment environment_id) p.grants)
                (suffices-best_rank is_tenant_wide p.grants required)
                (no_environment_grant required environment_id p.grants)
              ∙ sym (covers-split required scope environment_id p.grants)))
