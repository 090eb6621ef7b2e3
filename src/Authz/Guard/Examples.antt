-- ===== src/Authz/Guard/Examples.antt =====
-- The theorems on the guard and on callers, each applied to a small tenant.
use text.Mathlib.Text.{◌==◌ as str_eq}
use fleetward.Base.{ℕ, ◌≡◌, refl, true, false, [], ◌∷◌, Option, none, some, String, if◌then◌else◌}
use fleetward.Authz.Principal.{PrincipalKind, Grant, is_tenant_wide, Principal}
use fleetward.Authz.Scope.{
  ScopeSource, Rule, is_tenant_scope, found, unresolvable, Directory, Request, instance_scope,
  resolve_scope,
}
use fleetward.Authz.Guard.{check}
use fleetward.Authz.Guard.Ranks.{grants_rank}
use fleetward.Authz.Guard.Additive.{covers, allowed_when_covered}

-- A dba of one environment, and viewer of one instance in it.
abbrev somebody : Principal
somebody = record {
  kind = PrincipalKind.user;
  tenant_id = "t";
  grants =
      record { role = "viewer"; rank = 10; environment_id = ""; instance_id = "i1" }
      ∷ record { role = "dba"; rank = 30; environment_id = "prod"; instance_id = "" }
      ∷ [];
}

abbrev operator_grant : Grant
operator_grant = record { role = "operator"; rank = 20; environment_id = ""; instance_id = "i2" }

abbrev run_backup_rule : Rule
run_backup_rule = record {
  min_role = "dba";
  scope = ScopeSource.scope_request_instance;
  is_mutating = true;
  audit_read = false;
  action = "backup.run";
  resource_type = "instance";
  any_authenticated = false;
  scope_filtered = false;
}

abbrev one_policy : String → Option Rule
one_policy method = if str_eq method "RunBackup" then some run_backup_rule else none

abbrev seeded : String → Option ℕ
seeded role = if str_eq role "dba" then some 30 else if str_eq role "admin" then some 40 else none

abbrev tenant : Directory
tenant = record {
  instance_of_backup = λ id. unresolvable;
  instance_of_schedule = λ id. unresolvable;
  instance_of_verification = λ id. unresolvable;
  instance_of_alert = λ id. unresolvable;
  environment_of = λ id. if str_eq id "i1" then found "prod" else unresolvable;
}

abbrev of_i1 : Request
of_i1 field = if str_eq field "instance_id" then "i1" else ""

allowed_when_covered_example :
    (check one_policy seeded tenant (some somebody) "RunBackup" of_i1).0.allowed
    ≡ grants_rank 30 (covers (instance_scope "i1") "prod") somebody.grants
allowed_when_covered_example =
    allowed_when_covered one_policy seeded tenant somebody "RunBackup" of_i1 run_backup_rule 30
      (instance_scope "i1") "prod" refl refl refl refl (unfold resolve_scope in refl)
      (unfold is_tenant_scope in refl) refl

dba_is_allowed : grants_rank 30 (covers (instance_scope "i1") "prod") somebody.grants ≡ true
unfolding is_tenant_wide
dba_is_allowed = refl
