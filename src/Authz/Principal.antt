-- ===== src/Authz/Principal.antt =====
-- internal/controlplane/authn/authn.go: the caller, with the grants it holds, the chain that
-- recognises it, and what it may see of a listing.
pub mod Chained
pub mod Listing
use text.Mathlib.Text.{◌==◌ as str_eq}
use fleetward.Base.{
  ℕ, zero, suc, ◌+◌, ◌-◌, ◌*◌, ◌/◌, ◌%◌, ◌≤◌, ◌<◌, ◌≡◌, refl, sym, ap, subst, ◌∙◌, ◌≢◌, ◌↔◌, ◌⊎◌,
  inl, inr, Bool, true, false, not, ◌&&◌, ◌||◌, List, [], ◌∷◌, ◌++◌, map, Option, none, some,
  String, arith, ltb, leb, ◌==◌, if◌then◌else◌, eq→==, ==→eq, ne→==, ltb→lt, Bool-cases,
  Option-cases, ℤ, pos, negsuc, pos_part, neg_part, is_positive, holds, is_some, length, All,
  All-map, All-update, All-append, length-append, All-true, exists, where_rows, update, affected,
  update-All, update-none, row, row-update, row-none, row-keyed, row-key, row-update-some,
  row-update-none, row-update_ne, affected-row, affected-row-none, IsKeyed, IsKeyed-update, take,
  insert_on, sort_on, All-sort_on, All-take, All-where_rows,
}

pub data PrincipalKind : Type 0 where
  anonymous user system bootstrap : PrincipalKind

-- A row of role_grants. The ranks of the table `roles` are positive; an id that is not set is the
-- empty string.
pub record Grant : Type 0 where
  pub role : String
  pub rank : ℕ
  pub environment_id : String
  pub instance_id : String

unfoldable pub is_tenant_wide : Grant → Bool
is_tenant_wide g = str_eq g.environment_id "" && str_eq g.instance_id ""

pub record Principal : Type 0 where
  pub kind : PrincipalKind
  pub tenant_id : String
  pub grants : List Grant

abbrev pub is_somebody : PrincipalKind → Bool
is_somebody PrincipalKind.anonymous = false
is_somebody _ = true

abbrev pub is_authenticated : Principal → Bool
is_authenticated p = is_somebody p.kind

-- Callers that are constructed in the process, or that hold the operator's own credential.
abbrev pub is_trusted : PrincipalKind → Bool
is_trusted PrincipalKind.system = true
is_trusted PrincipalKind.bootstrap = true
is_trusted _ = false

-- The answer of an `Authenticator`: a principal, ErrNoCredential or another error.
pub data Authentication : Type 0 where
  recognised : Principal → Authentication
  no_credential : Authentication
  rejected : String → Authentication

-- `Chain.Authenticate`, on the answers that its links would give to the request.
unfoldable pub authenticate : List Authentication → Authentication
authenticate [] = no_credential
authenticate (recognised p ∷ rest) = recognised p
authenticate (no_credential ∷ rest) = authenticate rest
authenticate (rejected why ∷ rest) = rejected why

pub record Visibility : Type 0 where
  pub all : Bool
  pub environment_ids : List String
  pub instance_ids : List String

abbrev pub nothing_visible : Visibility
nothing_visible = record { all = false; environment_ids = []; instance_ids = [] }

abbrev pub all_visible : Visibility
all_visible = record { all = true; environment_ids = []; instance_ids = [] }

-- The loop over the grants, with what it has found so far.
unfoldable pub visible_to : ℕ → List Grant → Visibility → Visibility
visible_to min_rank [] v = v
visible_to min_rank (g ∷ gs) v =
    let skipped = visible_to min_rank gs v in
    let with_instance =
      visible_to min_rank gs (record v { instance_ids = v.instance_ids ++ (g.instance_id ∷ []) }) in
    let with_environment =
      visible_to min_rank gs
        (record v { environment_ids = v.environment_ids ++ (g.environment_id ∷ []) }) in
    if ltb g.rank min_rank
    then skipped
    else if is_tenant_wide g
    then all_visible
    else if not (str_eq g.instance_id "")
    then with_instance
    else if not (str_eq g.environment_id "")
    then with_environment
    else skipped

unfoldable pub visibility_for : Option Principal → ℕ → Visibility
visibility_for none min_rank = nothing_visible
visibility_for (some p) min_rank =
    if is_trusted p.kind then all_visible else visible_to min_rank p.grants nothing_visible

-- The filter that a listing applies to an instance: `$2 OR i.environment_id = ANY($3) OR
-- i.id = ANY($4)`.
unfoldable pub shows : Visibility → String → String → Bool
shows v environment_id instance_id =
    v.all
    || exists (str_eq environment_id) v.environment_ids
    || exists (str_eq instance_id) v.instance_ids
