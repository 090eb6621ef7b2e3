-- ===== src/Backup/Runs/Recording.antt =====
-- What a run writes to `backups`: createRows, recordSuccess and recordFailure of
-- internal/controlplane/backup/service.go, and the key of its artifact. Their statements on `jobs` are
-- events of Scheduler/Jobs; a transaction that the database refuses writes neither.
use text.Mathlib.Text.{◌==◌ as str_eq}
use Prim.Native.String.{◌++◌ as append}
use fleetward.Base.{
  ℕ, ◌⊎◌, inl, inr, Bool, false, not, ◌&&◌, List, Option, none, some, String, ◌==◌, if◌then◌else◌,
  ℤ, exists, update,
}
use fleetward.Scheduler.Rows.{BackupState}
use fleetward.Backup.Retention.{Origin, Backup, stamped_expiry}
use fleetward.Backup.Runs.Transfer.{BackupResult}

-- `objstore.ArtifactKey` with the leaf "artifact", where `uuid` is the text of an id.
unfoldable pub artifact_key : (ℕ → String) → ℕ → ℕ → ℕ → String
artifact_key uuid tenant instance_id backup_id = append "tenants/" (
    append (uuid tenant) (
      append "/instances/"
        (append (uuid instance_id) (append "/backups/" (append (uuid backup_id) "/artifact")))))

abbrev pub created_backup : ℕ → ℕ → ℕ → ℕ → String → ℕ → Backup
created_backup tenant id instance_id job method now = record {
  id = id;
  tenant_id = tenant;
  instance_id = instance_id;
  job_id = some job;
  method_id = method;
  external_id = none;
  checksum_value = "";
  error_message = "";
  started_at = some now;
  origin = Origin.managed;
  state = BackupState.running;
  completed_at = none;
  expires_at = none;
  size_bytes = 0;
  bucket = "";
  object_key = "";
  artifact_deleted_at = none;
  updated_at = now;
}

abbrev pub is_backup : ℕ → ℕ → Backup → Bool
is_backup tenant id b = b.id == id && b.tenant_id == tenant

abbrev pub is_text : Option String → String → Bool
is_text none s = false
is_text (some t) s = str_eq t s

-- The partial unique index on (instance_id, external_id).
abbrev pub has_identity : ℕ → String → Backup → Bool
has_identity instance_id external_id b =
    b.instance_id == instance_id && is_text b.external_id external_id

-- NULL, where the engine assigns none.
abbrev pub identity_of : BackupResult → Option String
identity_of r = if str_eq r.external_id "" then none else some r.external_id

abbrev pub is_taken : ℕ → ℕ → Option String → List Backup → Bool
is_taken id instance_id none rows = false
is_taken id instance_id (some e) rows =
    exists (λ b. not (b.id == id) && has_identity instance_id e b) rows

abbrev pub bucket_of : Option (String × String) → String
bucket_of none = ""
bucket_of (some (bucket, key)) = bucket

abbrev pub key_of : Option (String × String) → String
key_of none = ""
key_of (some (bucket, key)) = key

abbrev pub succeed : ℕ → ℤ → BackupResult → Backup → Backup
succeed now retention_days r b = record b {
  state = BackupState.succeeded;
  expires_at = stamped_expiry retention_days now;
  bucket = bucket_of r.artifact;
  object_key = key_of r.artifact;
  size_bytes = r.size_bytes;
  checksum_value = r.checksum_value;
  external_id = identity_of r;
  completed_at = some now;
  updated_at = now;
}

-- The answer of the database is an error of its own, or none; the index may refuse the row beside.
unfoldable pub record_backup_success :
    Option String → ℕ → ℕ → ℕ → ℕ → ℤ → BackupResult → List Backup → String ⊎ List Backup
record_backup_success (some failed) tenant id instance_id now retention_days r rows = inl failed
record_backup_success none tenant id instance_id now retention_days r rows =
    if is_taken id instance_id (identity_of r) rows
    then inl "duplicate key value violates unique constraint"
    else inr (update (is_backup tenant id) (succeed now retention_days r) rows)

abbrev pub fail : ℕ → String → Backup → Backup
fail now message b = record b {
  state = BackupState.failed;
  error_message = message;
  completed_at = some now;
  updated_at = now;
}

unfoldable pub record_backup_failure :
    Option String → ℕ → ℕ → ℕ → String → List Backup → String ⊎ List Backup
record_backup_failure (some failed) tenant id now message rows = inl failed
record_backup_failure none tenant id now message rows =
    inr (update (is_backup tenant id) (fail now message) rows)
