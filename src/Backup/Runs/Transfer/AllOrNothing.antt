-- ===== src/Backup/Runs/Transfer/AllOrNothing.antt =====
-- What is in the store after a transfer.
use Prim.Native.String.{◌++◌ as append}
use fleetward.Base.{◌≡◌, ◌∙◌, ◌⊎◌, inl, inr, true, false, List, none, some, String}
use fleetward.Backup.Retention.Sweep.{ObjectStore}
use fleetward.Backup.Runs.Transfer.{Part, Uploads, Transferred, aborted}

module _ (store : ObjectStore) (uploads : Uploads store) (key : String)
    (deletes : (o : store.Objects) → (store.delete key o).1 ≡ none) where
  -- The error is the one that the store gave for the completion of an upload to the key, and nothing
  -- was done since but to abort that upload.
  abbrev pub IsCompletionError : store.Objects → String → Type 0
  IsCompletionError after why =
      (upload : String) × (parts : List Part) × (before : store.Objects) × (reason : String)
      × ((uploads.complete key upload parts before).1 ≡ inl reason)
      × (after ≡ (uploads.abort key upload (uploads.complete key upload parts before).0).0)
      × (why ≡ append "complete the artifact upload: " reason)

  -- With a result, the object is there, and the result says where; with an error, it is not, unless
  -- the error is the store's own on completing the upload.
  abbrev pub IsAllOrNothing : Transferred store uploads → Type 0
  IsAllOrNothing (o, inl why) = (store.present key o ≡ false) ⊎ IsCompletionError o why
  IsAllOrNothing (o, inr r) = (store.present key o ≡ true) × (r.artifact ≡ some (store.bucket, key))

  aborted-IsAllOrNothing :
      (upload : String) (o : store.Objects) (why : String)
      → store.present key o ≡ false
      → IsAllOrNothing (aborted store uploads key upload o why)
  aborted-IsAllOrNothing upload o why absent = inl (uploads.abort_hidden key upload key o ∙ absent)
