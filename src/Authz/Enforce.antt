-- ===== src/Authz/Enforce.antt =====
-- internal/controlplane/authz/enforce.go: one call behind the guard, and what the audit log keeps of
-- it, with Record of internal/controlplane/audit/audit.go; and resourceID of guard.go. The log has its newest entry first.
pub mod Audited
mod Examples
use text.Mathlib.Text.{◌==◌ as str_eq}
use Prim.Native.String.{◌++◌ as append}
use fleetward.Base.{
  ℕ, ◌⊎◌, inl, inr, Bool, true, false, not, ◌&&◌, ◌||◌, List, [], ◌∷◌, Option, none, some, String,
  if◌then◌else◌,
}
use fleetward.Authz.Scope.{ScopeSource, Rule, Scope, Directory, Request}
use fleetward.Authz.Principal.{Principal}
use fleetward.Authz.Guard.{
  Status, unauthenticated, permission_denied, internal, Reason, Decision, Verdict, check,
}

-- The rule of a decision that was taken before a policy was found.
abbrev pub zero_rule : Rule
zero_rule = record {
  min_role = "";
  scope = ScopeSource.scope_tenant;
  is_mutating = false;
  audit_read = false;
  action = "";
  resource_type = "";
  any_authenticated = false;
  scope_filtered = false;
}

abbrev pub rule_of : Option Rule → Rule
rule_of none = zero_rule
rule_of (some rule) = rule

abbrev pub field_of : Request → Option String → String
field_of req none = ""
field_of req (some field) = if str_eq field "" then "" else req field

-- The field of a request that names a resource of a type; empty where no field does.
abbrev pub resource_id_fields : List (String × String)
resource_id_fields =
    ("instance", "instance_id")
    ∷ ("backup", "backup_id")
    ∷ ("schedule", "schedule_id")
    ∷ ("verification", "verification_id")
    ∷ ("api_token", "token_id")
    ∷ ("environment", "environment_id")
    ∷ ("job", "instance_id")
    ∷ ("audit_log", "")
    ∷ ("alert", "alert_id")
    ∷ ("alert_rule", "rule_id")
    ∷ ("notifier", "notifier_id")
    ∷ ("caller", "")
    ∷ []

unfoldable pub id_field : String → List (String × String) → Option String
id_field type [] = none
id_field type ((name, field) ∷ rest) =
    let others = id_field type rest in if str_eq name type then some field else others

unfoldable pub resource_id : Request → Option Rule → String
resource_id req none = ""
resource_id req (some rule) = field_of req (id_field rule.resource_type resource_id_fields)

unfoldable pub authorized_by : Scope → String
authorized_by s =
    if not (str_eq s.instance_id "")
    then append "a grant covering instance " s.instance_id
    else if not (str_eq s.environment_id "")
    then append "a grant covering environment " s.environment_id
    else "a tenant-wide grant"

-- The keys of the map of details; a key that is not set is none.
pub record Details : Type 0 where
  pub method : String
  pub required_role : String
  pub effective_role : String
  pub outcome : String
  pub reason : Option Reason
  pub authorized_by : String
  pub code : Option String
  pub created : Option String

pub record Entry : Type 0 where
  pub action : String
  pub resource_type : String
  pub resource_id : String
  pub succeeded : Bool
  pub details : Details

unfoldable pub record_refusal : String → Rule → String → Decision → Entry
record_refusal method rule id d = record {
  action = rule.action;
  resource_type = rule.resource_type;
  resource_id = id;
  succeeded = false;
  details = record {
    method = method;
    required_role = rule.min_role;
    effective_role = d.effective_role;
    outcome = "refused";
    reason = d.reason;
    authorized_by = authorized_by d.scope;
    code = none;
    created = none;
  };
}

abbrev pub succeeded_entry : String → Rule → Decision → String → Option String → Entry
succeeded_entry method rule d id created = record {
  action = rule.action;
  resource_type = rule.resource_type;
  resource_id = id;
  succeeded = true;
  details = record {
    method = method;
    required_role = rule.min_role;
    effective_role = d.effective_role;
    outcome = "succeeded";
    reason = none;
    authorized_by = authorized_by d.scope;
    code = none;
    created = created;
  };
}

abbrev pub failed_entry : String → Rule → Decision → String → String → Entry
failed_entry method rule d id code = record {
  action = rule.action;
  resource_type = rule.resource_type;
  resource_id = id;
  succeeded = false;
  details = record {
    method = method;
    required_role = rule.min_role;
    effective_role = d.effective_role;
    outcome = "failed";
    reason = none;
    authorized_by = authorized_by d.scope;
    code = some code;
    created = none;
  };
}

-- `Writer.Record`. Nothing is written without a principal that has a tenant; `accepts` says whether
-- the INSERT goes through, and one that fails is only logged.
unfoldable pub write_entry : (Entry → Bool) → Option Principal → Entry → List Entry → List Entry
write_entry accepts none e log = log
write_entry accepts (some p) e log =
    if str_eq p.tenant_id "" then log else if not (accepts e) then log else e ∷ log

-- What the call changes, and the rows of `audit_log`.
pub record Store (World : Type 0) : Type 0 where
  pub world : World
  pub log : List Entry

-- What the caller gets: a response, the code of the call's own error, or the guard's status.
pub data Answer (Resp : Type 0) : Type 0 where
  responded : Resp → Answer Resp
  call_failed : String → Answer Resp
  refused : Status → Answer Resp

abbrev pub answer_of : {Resp : Type 0} → String ⊎ Resp → Answer Resp
answer_of (inl code) = call_failed code
answer_of (inr resp) = responded resp

-- The response of a call stands for a generated message, and created_by for the id that reflection
-- reads off it.
module _ {Resp : Type 0} (created_by : Resp → String) where
  unfoldable pub record_outcome : String → Rule → String → Decision → String ⊎ Resp → Entry
  record_outcome method rule id d (inl code) = failed_entry method rule d id code
  record_outcome method rule id d (inr resp) =
      if str_eq (created_by resp) ""
      then succeeded_entry method rule d id none
      else if str_eq id ""
      then succeeded_entry method rule d (created_by resp) none
      else succeeded_entry method rule d id (some (created_by resp))

  module _ {World : Type 0} (accepts : Entry → Bool) (p : Option Principal) where
    abbrev pub after_call :
        String
        → Rule
        → String
        → Decision
        → List Entry
        → World × (String ⊎ Resp)
        → Store World × Answer Resp
    after_call method rule id d log (world, result) = (
      record {
        world = world;
        log =
            if rule.is_mutating || rule.audit_read
            then write_entry accepts p (record_outcome method rule id d result) log
            else log;
      },
      answer_of result,
    )

    abbrev pub after_check :
        String
        → Rule
        → String
        → (World → World × (String ⊎ Resp))
        → Store World
        → Verdict
        → Store World × Answer Resp
    after_check method rule id call s (d, none) = after_call method rule id d s.log (call s.world)
    after_check method rule id call s (d, some unauthenticated) = (s, refused unauthenticated)
    after_check method rule id call s (d, some (permission_denied m)) = (
      record s { log = write_entry accepts p (record_refusal method rule id d) s.log },
      refused (permission_denied m),
    )
    after_check method rule id call s (d, some (internal m)) = (
      record s { log = write_entry accepts p (record_refusal method rule id d) s.log },
      refused (internal m),
    )

  module _ {World : Type 0} (policies : String → Option Rule) (ranks : String → Option ℕ)
      (dir : Directory) (accepts : Entry → Bool) where
    -- A request in the hands of its method's implementation, behind the guard.
    unfoldable pub guarded :
        (Request → World → World × (String ⊎ Resp))
        → Option Principal
        → String
        → Request
        → Store World
        → Store World × Answer Resp
    guarded call p method req s =
        after_check accepts p method (rule_of (policies method)) (resource_id req (policies method))
          (call req) s (check policies ranks dir p method req)
