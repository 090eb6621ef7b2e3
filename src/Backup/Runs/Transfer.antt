-- ===== src/Backup/Runs/Transfer.antt =====
-- `transfer` and `stream` of internal/controlplane/backup/service.go: the upload, the plugin, and the
-- object that is there afterwards.
pub mod AllOrNothing
pub mod Placed
use text.Mathlib.Text.{◌==◌ as str_eq}
use Prim.Native.String.{◌++◌ as append}
use fleetward.Base.{
  ℕ, ◌≡◌, ◌≢◌, ◌⊎◌, inl, inr, Bool, true, false, not, List, [], ◌∷◌, map, Option, none, some,
  String, ◌==◌, if◌then◌else◌,
}
use fleetward.Backup.Retention.Sweep.{ObjectStore}
use fleetward.Backup.Runs.{ErrorCode, PluginError, RpcError, classify_plugin_error, plugin_error}

pub record Part : Type 0 where
  pub part_number : ℕ
  pub etag : String

-- `BackupResult`, as far as the core reads it here; the object is where the artifact is.
pub record BackupResult : Type 0 where
  pub parts : List Part
  pub size_bytes : ℕ
  pub checksum_value : String
  pub external_id : String
  pub artifact : Option (String × String)

pub data Progress : Type 0 where
  completed : Option BackupResult → Progress
  failed : PluginError → Progress
  canceled : String → Progress
  working : Progress

pub data Recv : Type 0 where
  progress : Progress → Recv
  broken : RpcError → Recv

-- A completed message without a result counts as none.
abbrev pub ended : Bool → Option BackupResult → String ⊎ BackupResult
ended true (some result) = inr result
ended _ _ = inl "the plugin ended the backup stream without reporting an outcome"

unfoldable pub read_stream : Bool → Option BackupResult → List Recv → String ⊎ BackupResult
read_stream terminal result [] = ended terminal result
read_stream terminal result (broken e ∷ rest) = inl (plugin_error "backup" e)
read_stream terminal result (progress (completed r) ∷ rest) = read_stream true r rest
read_stream terminal result (progress (failed e) ∷ rest) =
    inl (append (classify_plugin_error e) (append ": " e.message))
read_stream terminal result (progress (canceled message) ∷ rest) =
    inl (append "the plugin canceled the backup: " message)
read_stream terminal result (progress working ∷ rest) = read_stream terminal result rest

-- The answer of the Backup call: an error, or a stream.
unfoldable pub stream : RpcError ⊎ List Recv → String ⊎ BackupResult
stream (inl e) = inl (plugin_error "backup" e)
stream (inr messages) = read_stream false none messages

-- Multipart uploads over an object store. Creating or aborting an upload shows and hides no object,
-- and one whose completion answers a size has its object there. A completion that answers an error
-- says nothing of its object.
pub record Uploads (store : ObjectStore) : Type 0 where
  pub create : String → store.Objects → store.Objects × (String ⊎ String)
  pub abort : String → String → store.Objects → store.Objects × Option String
  pub complete : String → String → List Part → store.Objects → store.Objects × (String ⊎ ℕ)
  pub create_hidden :
      (k k' : String) (o : store.Objects) → store.present k' (create k o).0 ≡ store.present k' o
  pub abort_hidden :
      (k u k' : String) (o : store.Objects) → store.present k' (abort k u o).0 ≡ store.present k' o
  pub complete_shows :
      (k u : String) (parts : List Part) (o : store.Objects) (size : ℕ)
      → (complete k u parts o).1 ≡ inr size
      → store.present k (complete k u parts o).0 ≡ true
  pub complete_other :
      (k u k' : String) (parts : List Part) (o : store.Objects)
      → k ≢ k'
      → store.present k' (complete k u parts o).0 ≡ store.present k' o

module _ (store : ObjectStore) (uploads : Uploads store) where
  open store use {Objects, bucket, delete}
  open uploads use {create, abort, complete}

  abbrev pub Transferred : Type 0
  Transferred = Objects × (String ⊎ BackupResult)

  -- The deferred abort, whose own error is only logged.
  abbrev pub aborted : String → String → Objects → String → Transferred
  aborted key upload o why = ((abort key upload o).0, inl why)

  abbrev pub placed : String → BackupResult → BackupResult
  placed key r = record r { artifact = some (bucket, key) }

  -- The store's size decides.
  abbrev pub after_complete : String → String → BackupResult → Objects × (String ⊎ ℕ) → Transferred
  after_complete key upload r (o, inl why) =
      aborted key upload o (append "complete the artifact upload: " why)
  after_complete key upload r (o, inr size) =
      if not (size == r.size_bytes)
      then ((delete key o).0, inl "the stored artifact has another size than the plugin reported")
      else (o, inr (placed key r))

  abbrev pub complete_parts : String → String → Objects → BackupResult → List Part → Transferred
  complete_parts key upload o r [] =
      aborted key upload o "the plugin reported success without uploading any part of the artifact"
  complete_parts key upload o r (p ∷ ps) =
      after_complete key upload r (complete key upload (p ∷ ps) o)

  abbrev pub after_stream : String → String → Objects → String ⊎ BackupResult → Transferred
  after_stream key upload o (inl why) = aborted key upload o why
  after_stream key upload o (inr r) = complete_parts key upload o r r.parts

  abbrev pub after_create :
      String → RpcError ⊎ List Recv → Objects × (String ⊎ String) → Transferred
  after_create key answer (o, inl why) = (o, inl (append "begin the artifact upload: " why))
  after_create key answer (o, inr upload) = after_stream key upload o (stream answer)

  unfoldable pub transfer : String → RpcError ⊎ List Recv → Objects → Transferred
  transfer key answer o = after_create key answer (create key o)
