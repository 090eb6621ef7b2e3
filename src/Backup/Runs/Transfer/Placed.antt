-- ===== src/Backup/Runs/Transfer/Placed.antt =====
-- A transfer touches no object but its own, and its result says where that is.
use fleetward.Base.{
  ℕ, ◌≡◌, ◌≢◌, refl, ◌∙◌, ◌⊎◌, inl, inr, true, not, List, [], ◌∷◌, some, String, ◌==◌, Bool-cases,
}
use fleetward.Backup.Retention.Sweep.{ObjectStore}
use fleetward.Backup.Runs.{RpcError}
use fleetward.Backup.Runs.Transfer.{
  Part, BackupResult, Recv, stream, Uploads, Transferred, after_complete, complete_parts,
  after_stream, after_create, transfer,
}

module _ (store : ObjectStore) (uploads : Uploads store) (key : String)
    (start : store.Objects) where
  -- Every object of another key is there still.
  abbrev pub Spares : store.Objects → Type 0
  Spares o =
      (other : String)
      → key ≢ other
      → store.present other start ≡ true
      → store.present other o ≡ true

  abbrev pub IsResult : store.Objects → String ⊎ BackupResult → Type 0
  IsResult o (inl why) = Unit
  IsResult o (inr r) = (store.present key o ≡ true) × (r.artifact ≡ some (store.bucket, key))

  abbrev pub IsPlaced : Transferred store uploads → Type 0
  IsPlaced (o, result) = Spares o × IsResult o result

  abort-Spares :
      (upload : String) (o : store.Objects) → Spares o → Spares (uploads.abort key upload o).0
  abort-Spares upload o spares other apart there =
      uploads.abort_hidden key upload other o ∙ spares other apart there

  after_complete-IsPlaced :
      (upload : String) (r : BackupResult) (done : store.Objects × (String ⊎ ℕ))
      → Spares done.0
      → ((size : ℕ) → done.1 ≡ inr size → store.present key done.0 ≡ true)
      → IsPlaced (after_complete store uploads key upload r done)
  after_complete-IsPlaced upload r (o, inl why) spares shows = (abort-Spares upload o spares, tt)
  after_complete-IsPlaced upload r (o, inr size) spares shows =
      elim (Bool-cases (not (size == r.size_bytes))) [
        | inl mismatched ↦ rw mismatched (
          (λ other apart there. store.delete_other key other o apart (spares other apart there)),
          tt,
        )
        | inr same ↦ rw same (spares, (shows size refl, refl))
      ]

  complete_parts-IsPlaced :
      (upload : String) (o : store.Objects) (r : BackupResult) (parts : List Part)
      → Spares o
      → IsPlaced (complete_parts store uploads key upload o r parts)
  complete_parts-IsPlaced upload o r [] spares = (abort-Spares upload o spares, tt)
  complete_parts-IsPlaced upload o r (p ∷ ps) spares =
      after_complete-IsPlaced upload r (uploads.complete key upload (p ∷ ps) o)
        (λ other apart there.
          uploads.complete_other key upload other (p ∷ ps) o apart ∙ spares other apart there)
        (λ size e. uploads.complete_shows key upload (p ∷ ps) o size e)

  after_stream-IsPlaced :
      (upload : String) (o : store.Objects) (s : String ⊎ BackupResult)
      → Spares o
      → IsPlaced (after_stream store uploads key upload o s)
  after_stream-IsPlaced upload o (inl why) spares = (abort-Spares upload o spares, tt)
  after_stream-IsPlaced upload o (inr r) spares = complete_parts-IsPlaced upload o r r.parts spares

  after_create-IsPlaced :
      (answer : RpcError ⊎ List Recv) (c : store.Objects × (String ⊎ String))
      → Spares c.0
      → IsPlaced (after_create store uploads key answer c)
  after_create-IsPlaced answer (o, inl why) spares = (spares, tt)
  after_create-IsPlaced answer (o, inr upload) spares =
      after_stream-IsPlaced upload o (stream answer) spares

  pub transfer-IsPlaced :
      (answer : RpcError ⊎ List Recv) → IsPlaced (transfer store uploads key answer start)
  unfolding transfer
  transfer-IsPlaced answer =
      after_create-IsPlaced answer (uploads.create key start)
        (λ other apart there. uploads.create_hidden key other start ∙ there)
