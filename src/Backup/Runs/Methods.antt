-- ===== src/Backup/Runs/Methods.antt =====
-- What a plugin declares, and how a run picks a method of it: internal/plugin/sdk/capabilities.go, and
-- selectMethod, validateOptions and requireSharedDirectory of internal/controlplane/backup/service.go.
-- An enum of the protocol is its number.
pub mod Selection
mod Examples
use text.Mathlib.Text.{◌==◌ as str_eq}
use fleetward.Base.{
  ℕ, ◌+◌, ◌⊎◌, inl, inr, Bool, true, false, not, ◌&&◌, ◌||◌, List, [], ◌∷◌, ◌++◌, Option, none,
  some, String, leb, ltb, ◌==◌, if◌then◌else◌, exists,
}

pub record MethodOption : Type 0 where
  pub name : String
  pub is_enum : Bool
  pub allowed_values : List String

pub record BackupMethod : Type 0 where
  pub id : String
  pub kind : ℕ
  pub is_default : Bool
  pub enables_pitr : Bool
  pub requires_downtime : Bool
  pub requires_shared_directory : Bool
  pub options : List MethodOption

pub record BackupHistory : Type 0 where
  pub is_supported : Bool
  pub source_description : String
  pub identity_is_engine_assigned : Bool
  pub reports_outcome : Bool
  pub requires_shared_directory : Bool

pub record MetricSpec : Type 0 where
  pub name : String
  pub type : ℕ

pub record Capabilities : Type 0 where
  pub engine_type : String
  pub plugin_version : String
  pub backup_methods : List BackupMethod
  pub supports_online_backup : Bool
  pub supports_pitr : Bool
  pub supports_point_in_time_restore : Bool
  pub verification_checks : List ℕ
  pub supports_sandbox_restore : Bool
  pub image_repository : String
  pub container_port : ℕ
  pub supports_replication : Bool
  pub supports_replication_lag : Bool
  pub backup_history : BackupHistory
  pub metrics : List MetricSpec

pub data Complaint : Type 0 where
  nil_capabilities no_engine_type no_plugin_version no_method_id no_method_kind : Complaint
  duplicate_method : String → Complaint
  no_option_name no_allowed_values : Complaint
  not_one_default : ℕ → Complaint
  no_online_method no_pitr_method restore_without_pitr checks_without_sandbox : Complaint
  no_image no_port lag_without_replication no_source undeclared_source : Complaint
  no_metric_name no_metric_type : Complaint
  duplicate_metric : String → Complaint

abbrev pub complain : Bool → Complaint → List Complaint
complain true c = c ∷ []
complain false c = []

abbrev pub is_empty {ℓ} : {A : Type ℓ} → List A → Bool
is_empty [] = true
is_empty (x ∷ xs) = false

abbrev pub count_where {ℓ} : {A : Type ℓ} → (A → Bool) → List A → ℕ
count_where p [] = 0
count_where p (x ∷ xs) = if p x then 1 + count_where p xs else count_where p xs

abbrev pub is_seen : List String → String → Bool
is_seen seen id = exists (str_eq id) seen

abbrev pub option_complaints : List MethodOption → List Complaint
option_complaints [] = []
option_complaints (o ∷ os) =
    complain (str_eq o.name "") no_option_name
    ++ complain (o.is_enum && is_empty o.allowed_values) no_allowed_values
    ++ option_complaints os

-- The switch on the id: empty, seen before, or new.
abbrev pub id_complaints : List String → String → List Complaint
id_complaints seen id =
    if str_eq id ""
    then no_method_id ∷ []
    else if is_seen seen id
    then duplicate_method id ∷ []
    else []

abbrev pub see : List String → String → List String
see seen id = if str_eq id "" || is_seen seen id then seen else id ∷ seen

unfoldable pub method_complaints : List String → List BackupMethod → List Complaint
method_complaints seen [] = []
method_complaints seen (m ∷ ms) =
    id_complaints seen m.id
    ++ (complain (m.kind == 0) no_method_kind
        ++ (option_complaints m.options ++ method_complaints (see seen m.id) ms))

abbrev pub history_complaints : BackupHistory → List Complaint
history_complaints h =
    if h.is_supported
    then complain (str_eq h.source_description "") no_source
    else complain
        (h.identity_is_engine_assigned || h.reports_outcome || h.requires_shared_directory)
        undeclared_source

-- A metric without a name is passed over.
unfoldable pub metric_complaints : List String → List MetricSpec → List Complaint
metric_complaints seen [] = []
metric_complaints seen (m ∷ ms) =
    if str_eq m.name ""
    then no_metric_name ∷ metric_complaints seen ms
    else complain (is_seen seen m.name) (duplicate_metric m.name)
      ++ (complain (m.type == 0) no_metric_type ++ metric_complaints (m.name ∷ seen) ms)

abbrev pub sandbox_complaints : Capabilities → List Complaint
sandbox_complaints caps =
    complain (not (is_empty caps.verification_checks) && not caps.supports_sandbox_restore)
      checks_without_sandbox
    ++ (complain (caps.supports_sandbox_restore && str_eq caps.image_repository "") no_image
        ++ complain (caps.supports_sandbox_restore && caps.container_port == 0) no_port)

abbrev pub pitr_complaints : Capabilities → List Complaint
pitr_complaints caps =
    complain
      (caps.supports_online_backup
        && count_where (λ m. not m.requires_downtime) caps.backup_methods == 0)
      no_online_method
    ++ (complain (caps.supports_pitr && count_where (λ m. m.enables_pitr) caps.backup_methods == 0)
          no_pitr_method
        ++ complain (caps.supports_point_in_time_restore && not caps.supports_pitr)
            restore_without_pitr)

abbrev pub defaults : List BackupMethod → ℕ
defaults = count_where (λ m. m.is_default)

-- No complaint is no error.
unfoldable pub validate_capabilities : Option Capabilities → List Complaint
validate_capabilities none = nil_capabilities ∷ []
validate_capabilities (some caps) =
    complain (str_eq caps.engine_type "") no_engine_type
    ++ (complain (str_eq caps.plugin_version "") no_plugin_version
        ++ (method_complaints [] caps.backup_methods
            ++ (complain
                  (not (is_empty caps.backup_methods) && not (defaults caps.backup_methods == 1))
                  (not_one_default (defaults caps.backup_methods))
                ++ (pitr_complaints caps
                    ++ (sandbox_complaints caps
                        ++ (complain
                              (caps.supports_replication_lag && not caps.supports_replication)
                              lag_without_replication
                            ++ (history_complaints caps.backup_history
                                ++ metric_complaints [] caps.metrics)))))))

abbrev pub first_of : List BackupMethod → Option BackupMethod
first_of [] = none
first_of (m ∷ ms) = some m

unfoldable pub find_method : (BackupMethod → Bool) → List BackupMethod → Option BackupMethod
find_method p [] = none
find_method p (m ∷ ms) = let rest = find_method p ms in if p m then some m else rest

abbrev pub or_else : Option BackupMethod → Option BackupMethod → Option BackupMethod
or_else none other = other
or_else (some m) other = some m

-- The method marked default, or the first.
unfoldable pub default_backup_method : Capabilities → Option BackupMethod
default_backup_method caps =
    or_else (find_method (λ m. m.is_default) caps.backup_methods) (first_of caps.backup_methods)

unfoldable pub find_backup_method : Capabilities → String → Option BackupMethod
find_backup_method caps id = find_method (λ m. str_eq m.id id) caps.backup_methods

pub data SelectError : Type 0 where
  no_method no_default unknown_method unknown_option bad_value no_shared_directory : SelectError

abbrev pub or_refused : SelectError → Option BackupMethod → SelectError ⊎ BackupMethod
or_refused why none = inl why
or_refused why (some m) = inr m

unfoldable pub select_method : Capabilities → String → SelectError ⊎ BackupMethod
select_method caps requested =
    if is_empty caps.backup_methods
    then inl no_method
    else if str_eq requested ""
    then or_refused no_default (default_backup_method caps)
    else or_refused unknown_method (find_backup_method caps requested)

-- A later declaration of an option replaces an earlier one.
unfoldable pub declared : String → List MethodOption → Option MethodOption
declared name [] = none
declared name (o ∷ os) = elim (declared name os) [
  | some later ↦ some later
  | none ↦ if str_eq o.name name then some o else none
]

abbrev pub value_error : Option MethodOption → String → Option SelectError
value_error none value = some unknown_option
value_error (some o) value =
    if not o.is_enum || is_seen o.allowed_values value then none else some bad_value

-- The options as the map is ranged over, which may be in any order.
unfoldable pub validate_options : BackupMethod → List (String × String) → Option SelectError
validate_options m [] = none
validate_options m ((name, value) ∷ rest) =
    let later = validate_options m rest in
    elim (value_error (declared name m.options) value) [ some why ↦ some why | none ↦ later ]

-- The paths of the connection's shared directory.
unfoldable pub require_shared_directory : BackupMethod → String × String → Option SelectError
require_shared_directory m (engine_path, local_path) =
    if not m.requires_shared_directory
    then none
    else if not (str_eq engine_path "") && not (str_eq local_path "")
    then none
    else some no_shared_directory
