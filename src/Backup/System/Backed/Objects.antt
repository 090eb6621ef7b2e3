-- ===== src/Backup/System/Backed/Objects.antt =====
-- A transfer, its record and a deletion touch no object that another backup needs.
use fleetward.Base.{
  ℕ, ◌≡◌, ◌≢◌, sym, ap, ◌∙◌, ◌⊎◌, inl, inr, true, false, List, Option, some, String, row, row-key,
}
use fleetward.Backup.Retention.{Backup, is_succeeded, is_expired}
use fleetward.Backup.Retention.Sweep.{ObjectStore}
use fleetward.Backup.Runs.{RpcError}
use fleetward.Backup.Runs.Transfer.{BackupResult, Recv, Uploads, transfer}
use fleetward.Backup.Runs.Transfer.Placed.{IsResult, IsPlaced, transfer-IsPlaced}
use fleetward.Backup.System.{
  Phase, created, over, uploaded, gave_up, Run, System, find_run, transferred, transfer_run,
}
use fleetward.Backup.System.Keys.{has_slash, artifact_key-apart}
use fleetward.Backup.System.Backed.{
  is_uploaded, Awaits, own_key, run_key, IsReady, Stored, objects-Stored, turn-Stored,
}
use fleetward.Backup.System.Backed.Steps.{not_both, rows_apart}

-- The text of an id tells ids apart, and has no slash.
module _ (store : ObjectStore) (uploads : Uploads store) (uuid : ℕ → String)
    (injective : (m n : ℕ) → uuid m ≡ uuid n → m ≡ n) (plain : (n : ℕ) → has_slash (uuid n) ≡ false)
    (s : System store uploads uuid) (h : Stored store uploads uuid s) where
  -- The key of a run is no other run's, and not that of a backup that succeeded or expired.
  pub key_of_row :
      (id : ℕ) (b : Backup) (r : Run)
      → row (λ b. b.id) id s.backups ≡ some b
      → Awaits s.backups r
      → (is_succeeded b.state ≡ true) ⊎ (is_expired b.state ≡ true)
      → run_key store uploads uuid r ≢ own_key store uploads uuid b
  key_of_row id b r found (p, here, pending, tenant, instance_id) why =
      artifact_key-apart uuid plain injective r.tenant_id r.instance_id r.backup_id b.tenant_id
        b.instance_id b.id
        (λ e. elim why [
          | inl succeeded ↦
              rows_apart (λ x. is_succeeded x.state) s.backups id r.backup_id b p found here
                succeeded pending.1 (key ∙ e)
          | inr expired ↦
              rows_apart (λ x. is_expired x.state) s.backups id r.backup_id b p found here expired
                pending.2 (key ∙ e)
        ])
    where
      key : p.id ≡ r.backup_id
      key = row-key (λ x. x.id) r.backup_id s.backups here

  -- Two runs of which one has an artifact that waits to be recorded are two.
  key_of_run :
      (id : ℕ) (r r' : Run)
      → find_run store uploads uuid r.backup_id s.runs ≡ some r
      → find_run store uploads uuid id s.runs ≡ some r'
      → is_uploaded r.phase ≡ false
      → is_uploaded r'.phase ≡ true
      → run_key store uploads uuid r ≢ run_key store uploads uuid r'
  key_of_run id r r' here found idle busy =
      artifact_key-apart uuid plain injective r.tenant_id r.instance_id r.backup_id r'.tenant_id
        r'.instance_id r'.backup_id
        (λ e.
          let key : r'.backup_id ≡ id = row-key (λ x. x.backup_id) id s.runs found in
          let same : r ≡ r' =
            same_run
              (sym here ∙ ap (λ i. find_run store uploads uuid i s.runs) (e ∙ key) ∙ found) in
          not_both (ap (λ x. is_uploaded x.phase) same ∙ busy) idle)
    where
      same_run : {x y : Run} → ◌≡◌ {A = Option Run} (some x) (some y) → x ≡ y
      same_run e = cc

  transferred-Stored :
      (r : Run) (result : store.Objects × (String ⊎ BackupResult))
      → find_run store uploads uuid r.backup_id s.runs ≡ some r
      → is_uploaded r.phase ≡ false
      → Awaits s.backups r
      → IsPlaced store uploads (run_key store uploads uuid r) s.objects result
      → Stored store uploads uuid (transferred store uploads uuid r s result)
  transferred-Stored r (o, result) here idle awaits (spares, is) = by_result result is
    where
      moved : Stored store uploads uuid (record s { objects = o })
      moved =
          objects-Stored store uploads uuid s h o
            (λ id b found succeeded there.
              spares (own_key store uploads uuid b) (key_of_row id b r found awaits (inl succeeded))
                there)
            (λ id r' found busy awaits' there.
              spares (run_key store uploads uuid r') (key_of_run id r r' here found idle busy)
                there)

      by_result :
          (result : String ⊎ BackupResult)
          → IsResult store uploads (run_key store uploads uuid r) s.objects o result
          → Stored store uploads uuid (transferred store uploads uuid r s (o, result))
      by_result (inl why) placed =
          turn-Stored store uploads uuid (record s { objects = o }) moved r.backup_id r
            (gave_up why) here awaits
      by_result (inr result) placed =
          turn-Stored store uploads uuid (record s { objects = o }) moved r.backup_id r
            (uploaded result) here (awaits, placed.0, placed.1)

  pub transfer_run-Stored :
      (answer : RpcError ⊎ List Recv) (r : Run) (phase : Phase)
      → r.phase ≡ phase
      → find_run store uploads uuid r.backup_id s.runs ≡ some r
      → IsReady store uploads uuid s.objects s.backups r phase
      → Stored store uploads uuid (transfer_run store uploads uuid answer r phase s)
  transfer_run-Stored answer r over e here ready = h
  transfer_run-Stored answer r (gave_up why) e here ready = h
  transfer_run-Stored answer r (uploaded result) e here ready = h
  transfer_run-Stored answer r created e here ready =
      transferred-Stored r (transfer store uploads (run_key store uploads uuid r) answer s.objects)
        here (ap is_uploaded e) ready
        (transfer-IsPlaced store uploads (run_key store uploads uuid r) s.objects answer)
