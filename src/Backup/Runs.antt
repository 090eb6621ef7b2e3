-- ===== src/Backup/Runs.antt =====
-- A backup and a verification as they run: internal/controlplane/backup/service.go and verify.go.
-- A plugin's stream is the list of what its Recv calls return; the end of the list is io.EOF.
pub mod Transfer
pub mod Verify
pub mod Recording
pub mod Methods
mod Examples
use text.Mathlib.Text.{◌==◌ as str_eq}
use Prim.Native.String.{◌++◌ as append}
use fleetward.Base.{
  ℕ, ◌⊎◌, inl, inr, Bool, true, false, List, [], ◌∷◌, Option, none, some, String, if◌then◌else◌,
}

-- The codes of a plugin's error that the core tells apart.
pub data ErrorCode : Type 0 where
  unsupported tool_failed : ErrorCode
  other : ℕ → ErrorCode

-- A plugin's structured error, with the detail `artifact`; an absent one is that of zero values.
pub record PluginError : Type 0 where
  pub code : ErrorCode
  pub message : String
  pub artifact : String

-- What a failed RPC carries: the structured error, or the status message.
pub data RpcError : Type 0 where
  structured : PluginError → RpcError
  transport : String → RpcError

abbrev pub is_unsupported : ErrorCode → Bool
is_unsupported unsupported = true
is_unsupported _ = false

abbrev pub is_tool_failed : ErrorCode → Bool
is_tool_failed tool_failed = true
is_tool_failed _ = false

unfoldable pub is_artifact_corrupt : PluginError → Bool
is_artifact_corrupt e = str_eq e.artifact "corrupt"

-- An error of the service, with the text of its sentinel.
abbrev pub classify_plugin_error : PluginError → String
classify_plugin_error e = if is_unsupported e.code then "unsupported" else "plugin call failed"

abbrev pub wrapped : String → String → String → String
wrapped sentinel operation message =
    append sentinel (append ": " (append operation (append ": " message)))

unfoldable pub plugin_error : String → RpcError → String
plugin_error operation (structured e) = wrapped (classify_plugin_error e) operation e.message
plugin_error operation (transport message) = wrapped "plugin call failed" operation message
