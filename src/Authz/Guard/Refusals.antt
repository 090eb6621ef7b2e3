-- ===== src/Authz/Guard/Refusals.antt =====
-- What a refusal says.
use fleetward.Base.{
  ℕ, ◌≡◌, refl, ◌⊎◌, inl, inr, Bool, true, false, ◌&&◌, List, [], ◌∷◌, Option, none, some, String,
  arith, if◌then◌else◌, Bool-cases, ℤ, is_some, exists,
}
use fleetward.Authz.Principal.{Grant, is_tenant_wide, Principal, is_authenticated, is_trusted}
use fleetward.Authz.Scope.{
  Rule, Scope, is_tenant_scope, Lookup, found, unresolvable, failed, Directory, Request, Resolution,
  resolved, no_such_resource, lookup_failed, resolve_scope,
}
use fleetward.Authz.Guard.{
  suffices, best_rank, unauthenticated, permission_denied, internal, permission_denied_message,
  Verdict, judged, with_environment, check_within, check_estate, check_resolved, check_grants,
  check_ranked, check_rule, check,
}

-- A verdict that says one of three things: the request is allowed and has no status, it is denied in
-- the one sentence of its rule, or the guard could not decide. Only in the first is it allowed.
abbrev pub IsPlain : Rule → Verdict → Type 0
IsPlain rule (d, none) = d.allowed ≡ true
IsPlain rule (d, some unauthenticated) = ⊥
IsPlain rule (d, some (permission_denied m)) =
    (d.allowed ≡ false) × (m ≡ permission_denied_message rule)
IsPlain rule (d, some (internal why)) = d.allowed ≡ false

module _ (dir : Directory) (rule : Rule) (grants : List Grant) (required : ℕ) where
  judged-IsPlain :
      (scope : Scope) (best : ℤ) → IsPlain rule (judged dir rule grants required scope best)
  unfolding judged
  judged-IsPlain scope best = elim (Bool-cases (suffices best required)) [
    | inl enough ↦ rw enough
    | inr too_low ↦ rw too_low (refl, refl)
  ]

  with_environment-IsPlain :
      (scope : Scope) (best : ℤ) (l : Lookup)
      → IsPlain rule (with_environment dir rule grants required scope best l)
  with_environment-IsPlain scope best (found e) = judged-IsPlain _ _
  with_environment-IsPlain scope best unresolvable = (refl, refl)
  with_environment-IsPlain scope best (failed why) = refl

  check_within-IsPlain :
      (scope : Scope) (best : ℤ) → IsPlain rule (check_within dir rule grants required scope best)
  unfolding check_within
  check_within-IsPlain scope best = by_test _ _
    where
      by_test :
          (t : Bool) (near : ℤ)
          → IsPlain rule (
              if t
              then with_environment dir rule grants required scope near
                  (dir.environment_of scope.instance_id)
              else judged dir rule grants required scope near)
      by_test true near = with_environment-IsPlain scope near (dir.environment_of scope.instance_id)
      by_test false near = judged-IsPlain scope near

  check_estate-IsPlain :
      (scope : Scope) → IsPlain rule (check_estate dir rule grants required scope)
  unfolding check_estate
  check_estate-IsPlain scope =
      elim (Bool-cases (rule.scope_filtered && suffices (best_rank (λ g. true) grants) required)) [
        | inl allowed ↦ rw allowed
        | inr refused ↦ rw refused (refl, refl)
      ]

  check_resolved-IsPlain :
      (best : ℤ) (r : Resolution) → IsPlain rule (check_resolved dir rule grants required best r)
  check_resolved-IsPlain best (resolved scope) = elim (Bool-cases (is_tenant_scope scope)) [
    | inl estate ↦ rw estate (check_estate-IsPlain scope)
    | inr part ↦ rw part (check_within-IsPlain scope best)
  ]
  check_resolved-IsPlain best no_such_resource = (refl, refl)
  check_resolved-IsPlain best (lookup_failed why) = refl

  check_grants-IsPlain : (req : Request) → IsPlain rule (check_grants dir rule grants required req)
  unfolding check_grants
  check_grants-IsPlain req =
      elim (Bool-cases (suffices (best_rank is_tenant_wide grants) required)) [
        | inl enough ↦ rw enough
        | inr too_low ↦ rw too_low (
            check_resolved-IsPlain (best_rank is_tenant_wide grants)
              (resolve_scope dir rule.scope req))
      ]

module _ (policies : String → Option Rule) (ranks : String → Option ℕ) (dir : Directory) where
  check_ranked-IsPlain :
      (rule : Rule) (grants : List Grant) (req : Request) (o : Option ℕ)
      → IsPlain rule (check_ranked policies ranks dir rule grants req o)
  check_ranked-IsPlain rule grants req none = refl
  check_ranked-IsPlain rule grants req (some required) =
      check_grants-IsPlain dir rule grants required req

  check_rule-IsPlain :
      (p : Principal) (req : Request) (rule : Rule)
      → IsPlain rule (check_rule policies ranks dir p req (some rule))
  unfolding check_rule
  check_rule-IsPlain p req rule = elim (Bool-cases (is_trusted p.kind)) [
    | inl trusted ↦ simp trusted
    | inr untrusted ↦ elim (Bool-cases rule.any_authenticated) [
      | inl any ↦ simp (untrusted, any)
      | inr ranked ↦
          simp (untrusted, ranked) (check_ranked-IsPlain rule p.grants req (ranks rule.min_role))
    ]
  ]

  -- To a caller who is authenticated, a method with a policy answers in one of three ways: it is
  -- allowed, and without a status; it is denied, in the one sentence that the rule alone determines,
  -- whether the resource exists or not and however close the caller's role was; or the guard could
  -- not decide, and does not allow it.
  pub check-IsPlain :
      (p : Principal) (method : String) (req : Request) (rule : Rule)
      → is_authenticated p ≡ true
      → policies method ≡ some rule
      → IsPlain rule (check policies ranks dir (some p) method req)
  unfolding check
  check-IsPlain p method req rule somebody policy =
      simp (somebody, policy) (check_rule-IsPlain p req rule)

  -- A caller that nobody has authenticated is allowed nothing, and a method without a policy is
  -- allowed to nobody, an administrator and the control plane itself included.
  pub closed_by_default :
      (p : Option Principal) (method : String) (req : Request)
      → (exists is_authenticated (elim p [ none ↦ [] | some q ↦ q ∷ [] ]) ≡ false)
        ⊎ (policies method ≡ none)
      → ((check policies ranks dir p method req).0.allowed ≡ false)
        × (is_some (check policies ranks dir p method req).1 ≡ true)
  unfolding check check_rule
  closed_by_default none method req why = (refl, refl)
  closed_by_default (some p) method req why = elim (Bool-cases (is_authenticated p)) [
    | inr nobody ↦ simp nobody (refl, refl)
    | inl somebody ↦ elim why [
      | inl nobody ↦ absurd (ground arith)
      | inr no_policy ↦ simp (somebody, no_policy) (refl, refl)
    ]
  ]
