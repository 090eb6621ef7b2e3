-- ===== src/Alerts/Estate.antt =====
-- The rows that the evaluators of internal/controlplane/alerts/evaluate.go read, by the columns that
-- they read, and how an instant and a number read as text, which is a parameter.
use text.Mathlib.Text.{◌==◌ as str_eq}
use Prim.Native.String.{◌++◌ as append}
use fleetward.Base.{ℕ, Bool, List, Option, String, if◌then◌else◌, ℤ}
use fleetward.Scheduler.Rows.{BackupState, VerificationState}
use fleetward.Backup.Retention.{Backup}
use fleetward.Backup.Adherence.{AdherenceState}
use fleetward.Alerts.Rules.{Rule}

pub record InstanceRow : Type 0 where
  pub id : ℕ
  pub tenant_id : ℕ
  pub name : String
  pub environment_id : ℕ
  pub health : String
  pub health_message : String
  pub is_active : Bool
  pub last_seen_at : Option ℕ

-- A row of `verifications`.
pub record VerdictRow : Type 0 where
  pub id : ℕ
  pub tenant_id : ℕ
  pub backup_id : ℕ
  pub status : VerificationState
  pub error_message : String
  pub created_at : ℕ

-- A row of `backups`.
pub record AttemptRow : Type 0 where
  pub id : ℕ
  pub tenant_id : ℕ
  pub instance_id : ℕ
  pub state : BackupState
  pub error_message : String
  pub started_at : Option ℕ

-- What `InstanceAdherence` answers about one instance.
pub record AdherenceAnswer : Type 0 where
  pub instance_id : ℕ
  pub environment_id : ℕ
  pub instance_name : String
  pub state : AdherenceState
  pub deadline : ℕ
  pub latest_completed_at : Option ℕ
  pub caveats : List String

pub record Texts : Type 0 where
  pub rfc3339 : ℕ → String
  pub decimal : ℕ → String
  pub hours : ℤ → String
  pub uuid : ℕ → String

pub record Estate : Type 0 where
  pub instances : List InstanceRow
  pub verdicts : List VerdictRow
  pub attempts : List AttemptRow
  pub backups : List Backup
  pub adherence : List AdherenceAnswer
  pub rules : List Rule

-- `if message != "" { detail += lead + message }`.
abbrev pub with_message : String → String → String → String
with_message lead message detail =
    if str_eq message "" then detail else append detail (append lead message)
