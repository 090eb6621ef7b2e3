-- ===== src/Authz/Scope.antt =====
-- internal/controlplane/authz/policy.go and scope.go: what a method requires, and what a request acts
-- on.
use text.Mathlib.Text.{◌==◌ as str_eq}
use fleetward.Base.{Bool, ◌&&◌, String, if◌then◌else◌}

pub data ScopeSource : Type 0 where
  scope_tenant scope_request_instance scope_request_environment : ScopeSource
  scope_request_instance_or_environment scope_backup scope_schedule : ScopeSource
  scope_verification scope_alert : ScopeSource

-- What one method requires.
pub record Rule : Type 0 where
  pub min_role : String
  pub scope : ScopeSource
  pub is_mutating : Bool
  pub audit_read : Bool
  pub action : String
  pub resource_type : String
  pub any_authenticated : Bool
  pub scope_filtered : Bool

-- Both empty is the whole tenant.
pub record Scope : Type 0 where
  pub instance_id : String
  pub environment_id : String

unfoldable pub is_tenant_scope : Scope → Bool
is_tenant_scope s = str_eq s.instance_id "" && str_eq s.environment_id ""

-- A read of one column by id and tenant: a row, ErrNoRows, or the database's error.
pub data Lookup : Type 0 where
  found : String → Lookup
  unresolvable : Lookup
  failed : String → Lookup

-- The reads that the guard makes, as the caller's tenant sees them.
pub record Directory : Type 0 where
  pub instance_of_backup : String → Lookup
  pub instance_of_schedule : String → Lookup
  pub instance_of_verification : String → Lookup
  pub instance_of_alert : String → Lookup
  pub environment_of : String → Lookup

-- A request, by its string fields; a field that its message does not have is empty.
abbrev pub Request : Type 0
Request = String → String

pub data Resolution : Type 0 where
  resolved : Scope → Resolution
  no_such_resource : Resolution
  lookup_failed : String → Resolution

abbrev pub tenant_scope : Scope
tenant_scope = record { instance_id = ""; environment_id = "" }

abbrev pub instance_scope : String → Scope
instance_scope id = record { instance_id = id; environment_id = "" }

abbrev pub environment_scope : String → Scope
environment_scope id = record { instance_id = ""; environment_id = id }

abbrev pub resolved_by : Lookup → Resolution
resolved_by (found id) = resolved (instance_scope id)
resolved_by unresolvable = no_such_resource
resolved_by (failed why) = lookup_failed why

unfoldable pub instance_of : (String → Lookup) → String → Resolution
instance_of query id = if str_eq id "" then resolved tenant_scope else resolved_by (query id)

unfoldable pub resolve_scope : Directory → ScopeSource → Request → Resolution
resolve_scope dir scope_tenant req = resolved tenant_scope
resolve_scope dir scope_request_instance req = resolved (instance_scope (req "instance_id"))
resolve_scope dir scope_request_environment req =
    resolved (environment_scope (req "environment_id"))
resolve_scope dir scope_request_instance_or_environment req =
    if str_eq (req "instance_id") ""
    then resolved (environment_scope (req "environment_id"))
    else resolved (instance_scope (req "instance_id"))
resolve_scope dir scope_backup req = instance_of dir.instance_of_backup (req "backup_id")
resolve_scope dir scope_schedule req = instance_of dir.instance_of_schedule (req "schedule_id")
resolve_scope dir scope_verification req =
    instance_of dir.instance_of_verification (req "verification_id")
resolve_scope dir scope_alert req = instance_of dir.instance_of_alert (req "alert_id")
