-- ===== src/Backup/Runs/Verify.antt =====
-- internal/controlplane/backup/verify.go: what a verification may start from, how it runs in a
-- sandbox, and what it concludes; with Run of internal/controlplane/sandbox/sandbox.go.
pub mod Evidence
pub mod Cleanup
pub mod Recorded
use text.Mathlib.Text.{◌==◌ as str_eq}
use Prim.Native.String.{◌++◌ as append}
use fleetward.Base.{
  ℕ, ◌≡◌, ◌≢◌, ◌⊎◌, inl, inr, Bool, true, false, not, ◌&&◌, ◌||◌, List, [], ◌∷◌, Option, none, some,
  String, ◌==◌, if◌then◌else◌,
}
use fleetward.Scheduler.Rows.{JobState, BackupState, VerificationState}
use fleetward.Backup.Retention.{Origin, is_managed, is_succeeded}
use fleetward.Backup.Runs.{
  ErrorCode, PluginError, RpcError, is_tool_failed, is_artifact_corrupt, plugin_error,
}

-- The columns of a backup that decide whether it can be verified.
pub record TargetRow : Type 0 where
  pub state : BackupState
  pub origin : Origin
  pub object_key : String
  pub checksum_value : String

pub data NotVerifiable : Type 0 where
  no_backup observed not_succeeded no_artifact no_checksum : NotVerifiable

unfoldable pub load_verification_target : Option TargetRow → NotVerifiable ⊎ TargetRow
load_verification_target none = inl no_backup
load_verification_target (some b) =
    if not (is_managed b.origin)
    then inl observed
    else if not (is_succeeded b.state)
    then inl not_succeeded
    else if str_eq b.object_key ""
    then inl no_artifact
    else if str_eq b.checksum_value ""
    then inl no_checksum
    else inr b

-- The API's statuses of a conclusion.
pub data VerificationStatus : Type 0 where
  unspecified verified failed inconclusive : VerificationStatus
  unknown : ℕ → VerificationStatus

pub data Check : Type 0 where
  connectivity : Check
  other_check : ℕ → Check

pub record CheckResult : Type 0 where
  pub check : Check
  pub passed : Bool
  pub is_critical : Bool
  pub message : String

pub record Outcome : Type 0 where
  pub status : VerificationStatus
  pub checks : List CheckResult
  pub report : String
  pub err_msg : String
  pub sandbox_id : String

abbrev pub inconclusive_outcome : String → Outcome
inconclusive_outcome message = record {
  status = inconclusive;
  checks = [];
  report = append "verification could not reach a conclusion: " message;
  err_msg = message;
  sandbox_id = "";
}

pub data RestoreProgress : Type 0 where
  completed : RestoreProgress
  restore_failed : PluginError → RestoreProgress
  canceled : String → RestoreProgress
  working : RestoreProgress

pub data Recv : Type 0 where
  progress : RestoreProgress → Recv
  broken : RpcError → Recv

-- How a restore ends: restored, failed by the plugin, or by an error of another kind.
pub data RestoreEnd : Type 0 where
  restored : RestoreEnd
  plugin_failed : PluginError → RestoreEnd
  other_error : String → RestoreEnd

unfoldable pub read_restore : Bool → List Recv → RestoreEnd
read_restore true [] = restored
read_restore false [] =
    other_error "the plugin ended the restore stream without reporting an outcome"
read_restore terminal (broken e ∷ rest) = other_error (plugin_error "restore" e)
read_restore terminal (progress completed ∷ rest) = read_restore true rest
read_restore terminal (progress (restore_failed e) ∷ rest) = plugin_failed e
read_restore terminal (progress (canceled message) ∷ rest) =
    other_error (append "the plugin canceled the restore: " message)
read_restore terminal (progress working ∷ rest) = read_restore terminal rest

unfoldable pub restore : RpcError ⊎ List Recv → RestoreEnd
restore (inl e) = other_error (plugin_error "restore" e)
restore (inr messages) = read_restore false messages

unfoldable pub is_bad_artifact : PluginError → Bool
is_bad_artifact e = is_artifact_corrupt e || is_tool_failed e.code

unfoldable pub restore_failure_status : PluginError → VerificationStatus
restore_failure_status e = if is_bad_artifact e then failed else inconclusive

abbrev pub bad_artifact_detail : PluginError → String
bad_artifact_detail e =
    if is_artifact_corrupt e
    then "the artifact is not the one that was written"
    else "the engine's own tooling could not load the artifact"

abbrev pub bad_artifact_outcome : PluginError → Outcome
bad_artifact_outcome e = record {
  status = failed;
  checks =
      record { check = connectivity; passed = false; is_critical = true; message = e.message } ∷ [];
  report =
      append "the backup could not be restored: "
        (append (bad_artifact_detail e) (append "\n" e.message));
  err_msg = e.message;
  sandbox_id = "";
}

unfoldable pub classify_restore_outcome : PluginError → Outcome
classify_restore_outcome e =
    if is_bad_artifact e
    then bad_artifact_outcome e
    else inconclusive_outcome (append "the restore did not complete: " e.message)

-- The plugin's answer to VerifyRestore.
pub record VerifyAnswer : Type 0 where
  pub status : VerificationStatus
  pub checks : List CheckResult
  pub report : String
  pub error_message : String

abbrev pub spoken : VerificationStatus → VerificationStatus
spoken unspecified = inconclusive
spoken status = status

abbrev pub conclude : String → RpcError ⊎ VerifyAnswer → Outcome
conclude box (inl e) = record {
  status = inconclusive;
  checks = [];
  report = "verification could not reach a conclusion: the plugin's checks did not run";
  err_msg = plugin_error "verify restore" e;
  sandbox_id = box;
}
conclude box (inr a) = record {
  status = spoken a.status;
  checks = a.checks;
  report = a.report;
  err_msg = a.error_message;
  sandbox_id = box;
}

abbrev pub after_restore : String → RpcError ⊎ VerifyAnswer → RestoreEnd → Outcome
after_restore box answer restored = conclude box answer
after_restore box answer (plugin_failed e) = record (classify_restore_outcome e) {
  sandbox_id = box;
}
after_restore box answer (other_error why) =
    record (inconclusive_outcome (append "the restore did not complete: " why)) { sandbox_id = box }

-- What the plugin answers to the two calls.
pub record Plugin : Type 0 where
  pub restores : RpcError ⊎ List Recv
  pub verifies : RpcError ⊎ VerifyAnswer

unfoldable pub restore_and_verify : Plugin → String → Outcome
restore_and_verify plugin box = after_restore box plugin.verifies (restore plugin.restores)

-- A container runtime. Provisioning makes the sandbox that it returns live, or none where it fails; a
-- destruction that does not fail leaves its sandbox dead; neither makes another one live.
pub record Provider : Type 1 where
  pub World : Type 0
  pub live : String → World → Bool
  pub provision : World → World × (String ⊎ String)
  pub destroy : String → World → World × Option String
  pub provision_only :
      (id : String) (w : World)
      → live id w ≡ false
      → (provision w).1 ≢ inr id
      → live id (provision w).0 ≡ false
  pub destroy_only :
      (box id : String) (w : World) → live id w ≡ false → live id (destroy box w).0 ≡ false
  pub destroy_gone :
      (box : String) (w : World) → (destroy box w).1 ≡ none → live box (destroy box w).0 ≡ false

module _ (provider : Provider) where
  open provider use {World, provision, destroy}

  -- A teardown that fails leaves the conclusion, unless it names no sandbox.
  abbrev pub after_destroy : Outcome → World × Option String → World × Outcome
  after_destroy result (w, none) = (w, result)
  after_destroy result (w, some why) = (
    w,
    if str_eq result.sandbox_id ""
        then inconclusive_outcome (
            append "the verification sandbox could not be provisioned: "
              (append "destroy sandbox: " why))
        else result,
  )

  abbrev pub in_sandbox : (String → Outcome) → World × (String ⊎ String) → World × Outcome
  in_sandbox checks (w, inl why) =
      (w, inconclusive_outcome (append "the verification sandbox could not be provisioned: " why))
  in_sandbox checks (w, inr box) = after_destroy (checks box) (destroy box w)

  abbrev pub with_grant : Plugin → String ⊎ String → World → World × Outcome
  with_grant plugin (inl why) w =
      (w, inconclusive_outcome (append "the artifact's download grant could not be issued: " why))
  with_grant plugin (inr url) w = in_sandbox (restore_and_verify plugin) (provision w)

  -- The number of the manifest's entries, whether a provider is configured, the download grant, and
  -- the plugin.
  unfoldable pub run_verification : ℕ → Bool → String ⊎ String → Plugin → World → World × Outcome
  run_verification entries configured grant plugin w =
      if entries == 0
      then (
        w,
        inconclusive_outcome
            "the backup carries no manifest, so a restore of it would prove nothing",
      )
      else if not configured
      then (w, inconclusive_outcome "no sandbox provider is configured on this control plane")
      else with_grant plugin grant w

-- `verificationStateName`.
unfoldable pub verification_state_name : VerificationStatus → VerificationState
verification_state_name verified = VerificationState.verified
verification_state_name failed = VerificationState.failed
verification_state_name _ = VerificationState.inconclusive

unfoldable pub parse_verification_status : VerificationState → VerificationStatus
parse_verification_status VerificationState.verified = verified
parse_verification_status VerificationState.failed = failed
parse_verification_status VerificationState.inconclusive = inconclusive
parse_verification_status _ = unspecified

abbrev pub is_inconclusive : VerificationStatus → Bool
is_inconclusive inconclusive = true
is_inconclusive _ = false

unfoldable pub job_state_of : VerificationStatus → JobState
job_state_of status = if is_inconclusive status then JobState.failed else JobState.succeeded
