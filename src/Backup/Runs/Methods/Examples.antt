-- ===== src/Backup/Runs/Methods/Examples.antt =====
-- A plugin of two methods.
use fleetward.Base.{◌≡◌, refl, inr, true, false, [], ◌∷◌, ◌==◌}
use fleetward.Backup.Runs.Methods.{
  BackupMethod, Capabilities, method_complaints, metric_complaints, defaults, select_method,
  validate_capabilities,
}
use fleetward.Backup.Runs.Methods.Selection.{the_default_is_taken}

abbrev physical : BackupMethod
physical = record {
  id = "physical";
  kind = 2;
  is_default = false;
  enables_pitr = true;
  requires_downtime = false;
  requires_shared_directory = false;
  options = [];
}

abbrev logical : BackupMethod
logical = record {
  id = "logical";
  kind = 1;
  is_default = true;
  enables_pitr = false;
  requires_downtime = false;
  requires_shared_directory = false;
  options = [];
}

abbrev postgres : Capabilities
postgres = record {
  engine_type = "postgresql";
  plugin_version = "1.0";
  backup_methods = physical ∷ logical ∷ [];
  supports_online_backup = true;
  supports_pitr = true;
  supports_point_in_time_restore = false;
  verification_checks = 1 ∷ [];
  supports_sandbox_restore = true;
  image_repository = "postgres";
  container_port = 5432;
  supports_replication = false;
  supports_replication_lag = false;
  backup_history = record {
    is_supported = false;
    source_description = "";
    identity_is_engine_assigned = false;
    reports_outcome = false;
    requires_shared_directory = false;
  };
  metrics = [];
}

the_default_is_taken_example :
    (m : BackupMethod) × (select_method postgres "" ≡ inr m)
    × (m.is_default ≡ true)
    × ((defaults postgres.backup_methods == 1) ≡ true)
unfolding validate_capabilities method_complaints metric_complaints
the_default_is_taken_example = the_default_is_taken postgres refl refl
