-- ===== src/Authz/Guard.antt =====
-- internal/controlplane/authz/guard.go: the decision on one request.
pub mod Ranks
pub mod Additive
pub mod Refusals
pub mod Monotone
mod Examples
use text.Mathlib.Text.{◌==◌ as str_eq}
use Prim.Native.String.{◌++◌ as append}
use fleetward.Base.{
  ℕ, zero, suc, ◌+◌, ◌-◌, ◌*◌, ◌/◌, ◌%◌, ◌≤◌, ◌<◌, ◌≡◌, refl, sym, ap, subst, ◌∙◌, ◌≢◌, ◌↔◌, ◌⊎◌,
  inl, inr, Bool, true, false, not, ◌&&◌, ◌||◌, List, [], ◌∷◌, ◌++◌, map, Option, none, some,
  String, arith, ltb, leb, ◌==◌, if◌then◌else◌, eq→==, ==→eq, ne→==, ltb→lt, Bool-cases,
  Option-cases, ℤ, pos, negsuc, pos_part, neg_part, is_positive, holds, is_some, length, All,
  All-map, All-update, All-append, length-append, All-true, exists, where_rows, update, affected,
  update-All, update-none, row, row-update, row-none, row-keyed, row-key, row-update-some,
  row-update-none, row-update_ne, affected-row, affected-row-none, IsKeyed, IsKeyed-update, take,
  insert_on, sort_on, All-sort_on, All-take, All-where_rows,
}
use fleetward.Authz.Scope.{
  Rule, Scope, is_tenant_scope, Lookup, found, unresolvable, failed, Directory, Request, Resolution,
  resolved, no_such_resource, lookup_failed, tenant_scope, resolve_scope,
}
use fleetward.Authz.Principal.{
  PrincipalKind, Grant, is_tenant_wide, Principal, is_authenticated, is_trusted,
}

-- A rank, or -1 for none.
abbrev pub exceeds : ℕ → ℤ → Bool
exceeds rank (pos best) = ltb best rank
exceeds rank (negsuc n) = true

abbrev pub suffices : ℤ → ℕ → Bool
suffices (pos best) required = leb required best
suffices (negsuc n) required = false

abbrev pub greater : ℤ → ℤ → ℤ
greater (pos r) best = if exceeds r best then pos r else best
greater (negsuc n) best = best

unfoldable pub best_rank_from : ℤ → (Grant → Bool) → List Grant → ℤ
best_rank_from best matching [] = best
best_rank_from best matching (g ∷ gs) =
    let higher = best_rank_from (pos g.rank) matching gs in
    let same = best_rank_from best matching gs in
    if matching g && exceeds g.rank best then higher else same

abbrev pub best_rank : (Grant → Bool) → List Grant → ℤ
best_rank matching grants = best_rank_from (negsuc 0) matching grants

abbrev pub is_rank : ℤ → ℕ → Bool
is_rank (pos best) rank = rank == best
is_rank (negsuc n) rank = false

unfoldable pub role_at_least : ℤ → List Grant → String
role_at_least rank [] = ""
role_at_least rank (g ∷ gs) =
    let rest = role_at_least rank gs in if is_rank rank g.rank then g.role else rest

abbrev pub holds_environment_grant : List Grant → Bool
holds_environment_grant = exists λ g. not (str_eq g.environment_id "")

unfoldable pub highest_role_from : ℤ → String → List Grant → String
highest_role_from best role [] = role
highest_role_from best role (g ∷ gs) =
    let higher = highest_role_from (pos g.rank) g.role gs in
    let same = highest_role_from best role gs in if exceeds g.rank best then higher else same

abbrev pub highest_role : List Grant → String
highest_role grants = highest_role_from (negsuc 0) "" grants

-- The gRPC status of a refusal.
pub data Status : Type 0 where
  unauthenticated : Status
  permission_denied : String → Status
  internal : String → Status

unfoldable pub permission_denied_message : Rule → String
permission_denied_message rule =
    if str_eq rule.min_role ""
    then "permission denied"
    else append "permission denied: this action requires the "
        (append rule.min_role " role within its scope")

-- Why the guard refused, as the audit record tells it.
pub data Reason : Type 0 where
  no_resource no_instance : Reason
  whole_estate : String → Reason
  too_low : String → String → Reason

-- What the guard concluded. The method, its rule and the id of the resource, which the decision also
-- carries to the audit log, are the request's.
pub record Decision : Type 0 where
  pub scope : Scope
  pub effective_role : String
  pub allowed : Bool
  pub reason : Option Reason

abbrev pub undecided : Decision
undecided = record { scope = tenant_scope; effective_role = ""; allowed = false; reason = none }

-- A decision, with the status that the caller is told on a refusal.
abbrev pub Verdict : Type 0
Verdict = Decision × Option Status

abbrev pub allow : Scope → String → Verdict
allow scope role = (record undecided { scope = scope; effective_role = role; allowed = true }, none)

abbrev pub covers_scope : Scope → Grant → Bool
covers_scope s g =
    (not (str_eq s.instance_id "") && str_eq g.instance_id s.instance_id)
    || (not (str_eq s.environment_id "") && str_eq g.environment_id s.environment_id)

abbrev pub covers_environment : String → Grant → Bool
covers_environment environment_id g =
    not (str_eq g.environment_id "") && str_eq g.environment_id environment_id

module _ (dir : Directory) (rule : Rule) (grants : List Grant) (required : ℕ) where
  abbrev pub refuse : Decision → Reason → Verdict
  refuse d why =
      (record d { reason = some why }, some (permission_denied (permission_denied_message rule)))

  -- What the best rank that was found decides.
  unfoldable pub judged : Scope → ℤ → Verdict
  judged scope best =
      if suffices best required
      then allow scope (role_at_least best grants)
      else refuse (record undecided { scope = scope; effective_role = role_at_least best grants })
          (too_low (role_at_least best grants) rule.min_role)

  abbrev pub with_environment : Scope → ℤ → Lookup → Verdict
  with_environment scope best (found environment_id) =
      judged (record scope { environment_id = environment_id })
        (greater (best_rank (covers_environment environment_id) grants) best)
  with_environment scope best unresolvable = refuse (record undecided { scope = scope }) no_instance
  with_environment scope best (failed why) =
      (record undecided { scope = scope }, some (internal (append "authorize: " why)))

  -- A request that names a part of the estate.
  unfoldable pub check_within : Scope → ℤ → Verdict
  check_within scope tenant_best =
      let best = greater (best_rank (covers_scope scope) grants) tenant_best in
      if not (suffices best required)
        && not (str_eq scope.instance_id "")
        && holds_environment_grant grants
      then with_environment scope best (dir.environment_of scope.instance_id)
      else judged scope best

  -- A request about the whole estate.
  unfoldable pub check_estate : Scope → Verdict
  check_estate scope =
      let anywhere = best_rank (λ g. true) grants in
      if rule.scope_filtered && suffices anywhere required
      then allow scope (role_at_least anywhere grants)
      else refuse (record undecided { scope = scope }) (whole_estate rule.min_role)

  abbrev pub check_resolved : ℤ → Resolution → Verdict
  check_resolved best (resolved scope) =
      if is_tenant_scope scope then check_estate scope else check_within scope best
  check_resolved best no_such_resource = refuse undecided no_resource
  check_resolved best (lookup_failed why) = (undecided, some (internal (append "authorize: " why)))

  -- A tenant-wide grant covers everything, and asks for no read.
  unfoldable pub check_grants : Request → Verdict
  check_grants req =
      let best = best_rank is_tenant_wide grants in
      if suffices best required
      then allow tenant_scope (role_at_least best grants)
      else check_resolved best (resolve_scope dir rule.scope req)

module _ (policies : String → Option Rule) (ranks : String → Option ℕ) (dir : Directory) where
  abbrev pub check_ranked : Rule → List Grant → Request → Option ℕ → Verdict
  check_ranked rule grants req none =
      (undecided, some (internal (append "unknown role \"" (append rule.min_role "\" in policy"))))
  check_ranked rule grants req (some required) = check_grants dir rule grants required req

  unfoldable pub check_rule : Principal → Request → Option Rule → Verdict
  check_rule p req none = (
    undecided,
    some (permission_denied "this endpoint has no authorization policy and is refused to everyone"),
  )
  check_rule p req (some rule) =
      if is_trusted p.kind
      then allow tenant_scope "admin"
      else if rule.any_authenticated
      then allow tenant_scope (highest_role p.grants)
      else check_ranked rule p.grants req (ranks rule.min_role)

  -- `Check`, on the principal that the context carries.
  unfoldable pub check : Option Principal → String → Request → Verdict
  check none method req = (undecided, some unauthenticated)
  check (some p) method req =
      if is_authenticated p
      then check_rule p req (policies method)
      else (undecided, some unauthenticated)
