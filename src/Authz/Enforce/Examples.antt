-- ===== src/Authz/Enforce/Examples.antt =====
-- The theorems on the audit log, each applied to one call.
use text.Mathlib.Text.{◌==◌ as str_eq}
use fleetward.Base.{
  ℕ, suc, ◌≡◌, refl, ◌⊎◌, inr, true, false, [], ◌∷◌, Option, none, some, String, if◌then◌else◌,
}
use fleetward.Authz.Principal.{PrincipalKind, is_tenant_wide, Principal}
use fleetward.Authz.Scope.{
  ScopeSource, is_tenant_scope, resolve_scope, Rule, found, unresolvable, Directory, Request,
}
use fleetward.Authz.Guard.{
  check, check_rule, check_grants, best_rank_from, check_within, judged, role_at_least,
}
use fleetward.Authz.Enforce.{
  Store, responded, guarded, write_entry, record_outcome, resource_id, id_field, authorized_by,
}
use fleetward.Authz.Enforce.Audited.{IsAudited, guarded-IsAudited}

-- An operator of one instance.
abbrev operator : Principal
operator = record {
  kind = PrincipalKind.user;
  tenant_id = "t";
  grants = record { role = "operator"; rank = 20; environment_id = ""; instance_id = "i1" } ∷ [];
}

abbrev run_backup_rule : Rule
run_backup_rule = record {
  min_role = "operator";
  scope = ScopeSource.scope_request_instance;
  is_mutating = true;
  audit_read = false;
  action = "backup.run";
  resource_type = "instance";
  any_authenticated = false;
  scope_filtered = false;
}

abbrev one_policy : String → Option Rule
one_policy method = if str_eq method "RunBackup" then some run_backup_rule else none

abbrev seeded : String → Option ℕ
seeded role = if str_eq role "operator" then some 20 else none

abbrev tenant : Directory
tenant = record {
  instance_of_backup = λ id. unresolvable;
  instance_of_schedule = λ id. unresolvable;
  instance_of_verification = λ id. unresolvable;
  instance_of_alert = λ id. unresolvable;
  environment_of = λ id. found "prod";
}

-- A call that counts its runs and makes the backup b1.
abbrev make_backup : Request → ℕ → ℕ × (String ⊎ String)
make_backup req runs = (suc runs, inr "b1")

abbrev at_first : Store ℕ
at_first = record { world = 0; log = [] }

abbrev of_instance : String → Request
of_instance id field = if str_eq field "instance_id" then id else ""

-- The entry is about the instance, and names the backup as what was created.
backup_is_recorded :
    guarded
      (λ id. id)
      one_policy
      seeded
      tenant
      (λ e. true)
      make_backup
      (some operator)
      "RunBackup"
      (of_instance "i1")
      at_first
    ≡ (
      record {
        world = 1;
        log =
            record {
              action = "backup.run";
              resource_type = "instance";
              resource_id = "i1";
              succeeded = true;
              details = record {
                method = "RunBackup";
                required_role = "operator";
                effective_role = "operator";
                outcome = "succeeded";
                reason = none;
                authorized_by = "a grant covering instance i1";
                code = none;
                created = some "b1";
              };
            }
            ∷ [];
      },
      responded "b1",
    )
unfolding guarded write_entry check check_rule check_grants best_rank_from is_tenant_wide
    resolve_scope is_tenant_scope check_within judged record_outcome resource_id id_field
    role_at_least authorized_by
backup_is_recorded = refl

guarded-IsAudited_example :
    IsAudited
      (λ e. true)
      run_backup_rule
      []
      (guarded
        (λ id. id)
        one_policy
        seeded
        tenant
        (λ e. true)
        make_backup
        (some operator)
        "RunBackup"
        (of_instance "i1")
        at_first)
guarded-IsAudited_example =
    guarded-IsAudited (λ id. id) one_policy seeded tenant (λ e. true) make_backup operator
      "RunBackup" (of_instance "i1") run_backup_rule at_first refl refl refl refl

i2_is_denied :
    (check one_policy seeded tenant (some operator) "RunBackup" (of_instance "i2")).0.allowed
    ≡ false
unfolding check check_rule check_grants best_rank_from is_tenant_wide resolve_scope is_tenant_scope
    check_within judged
i2_is_denied = refl
