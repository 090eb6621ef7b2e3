-- ===== src/Backup/System/Backed/Records.antt =====
-- The statement that records the outcome of a run.
use fleetward.Base.{
  ℕ, ◌≡◌, refl, sym, ap, ◌∙◌, inl, inr, true, false, Option, none, some, String, arith, ◌==◌,
  Bool-cases, update, row, row-key, row-update-some,
}
use fleetward.Backup.Retention.{Backup}
use fleetward.Backup.Retention.Sweep.{ObjectStore}
use fleetward.Backup.Runs.Transfer.{BackupResult, Uploads}
use fleetward.Backup.Runs.Recording.{
  artifact_key, is_backup, identity_of, is_taken, key_of, succeed, fail, record_backup_success,
  record_backup_failure,
}
use fleetward.Backup.System.{
  Phase, created, over, uploaded, gave_up, Run, System, find_run, turn, record_run,
}
use fleetward.Backup.System.Backed.{is_over, own_key, IsReady, Stored, turn-Stored, update-Stored}
use fleetward.Backup.System.Backed.Steps.{not_both, same_found}

some_run : {x y : Run} → ◌≡◌ {A = Option Run} (some x) (some y) → x ≡ y
some_run e = cc

module _ (store : ObjectStore) (uploads : Uploads store) (uuid : ℕ → String)
    (s : System store uploads uuid) (h : Stored store uploads uuid s) (r : Run)
    (here : find_run store uploads uuid r.backup_id s.runs ≡ some r) where
  abbrev finished : System store uploads uuid
  finished = record s { runs = turn store uploads uuid r.backup_id over s.runs }

  ended : Stored store uploads uuid finished
  ended = turn-Stored store uploads uuid s h r.backup_id r over here tt

  -- No run that goes on waits for the row.
  no_other :
      (id : ℕ) (r' : Run) (b : Backup)
      → find_run store uploads uuid id finished.runs ≡ some r'
      → row (λ b. b.id) r'.backup_id s.backups ≡ some b
      → is_over r'.phase ≡ false
      → is_backup r.tenant_id r.backup_id b ≡ true
      → ⊥
  no_other id r' b found there open_ hit =
      let key : r'.backup_id ≡ id = row-key (λ x. x.backup_id) id finished.runs found in
      let mine : b.id ≡ r'.backup_id = row-key (λ x. x.id) r'.backup_id s.backups there in
      let same : id ≡ r.backup_id = ground arith in
      let turned =
        row-update-some (λ x. x.backup_id) (λ x. x.backup_id == r.backup_id)
          (λ x. record x { phase = over }) (λ x. refl) r.backup_id s.runs here in
      let hit' : (r.backup_id == r.backup_id) ≡ true = ground arith in
      let is : r' ≡ record r { phase = over } = some_run (
        sym found
        ∙ ap (λ i. find_run store uploads uuid i finished.runs) same
        ∙ turned
        ∙ rw hit' refl) in
      not_both (ap (λ x. is_over x.phase) is) open_

  fail-Stored :
      (now : ℕ) (why : String)
      → Stored store uploads uuid (record finished {
        backups = update (is_backup r.tenant_id r.backup_id) (fail now why) s.backups;
      })
  fail-Stored now why =
      update-Stored store uploads uuid finished ended (is_backup r.tenant_id r.backup_id)
        (fail now why) (λ b. refl) (λ b. (refl, refl))
        (λ id b found hit. ((λ managed succeeded. absurd (cc)), (h.rows id b found).1))
        (λ id r' b found there open_ pending hit. (pending.0, refl, refl))

  succeed-Stored :
      (now : ℕ) (result : BackupResult)
      → IsReady store uploads uuid s.objects s.backups r (uploaded result)
      → Stored store uploads uuid (record finished {
        backups =
            update
              (is_backup r.tenant_id r.backup_id)
              (succeed now r.retention_days result)
              s.backups;
      })
  succeed-Stored now result (awaits, there, placed) =
      update-Stored store uploads uuid finished ended (is_backup r.tenant_id r.backup_id)
        (succeed now r.retention_days result) (λ b. refl) (λ b. (refl, refl))
        (λ id b found hit.
          let own = own_row id b found hit in
          (
            (λ managed succeeded.
                (own, ap (λ k. store.present k s.objects) (ap key_of placed) ∙ there)),
            inr own,
          ))
        (λ id r' b found row_there open_ pending hit.
          absurd (no_other id r' b found row_there open_ hit))
    where
      own_row :
          (id : ℕ) (b : Backup)
          → row (λ b. b.id) id s.backups ≡ some b
          → is_backup r.tenant_id r.backup_id b ≡ true
          → key_of result.artifact ≡ own_key store uploads uuid b
      own_row id b found hit =
          let (p, waits, pending, tenant, instance_id) = awaits in
          let key : b.id ≡ id = row-key (λ x. x.id) id s.backups found in
          let named : b.id ≡ r.backup_id = ground arith in
          let same : p ≡ b =
            same_found
              (sym waits ∙ ap (λ i. row (λ x. x.id) i s.backups) (sym named ∙ key) ∙ found) in
          ap key_of placed
          ∙ ap (λ t. artifact_key uuid t r.instance_id r.backup_id) (sym tenant)
          ∙ ap (λ i. artifact_key uuid p.tenant_id i r.backup_id) (sym instance_id)
          ∙ ap (λ i. artifact_key uuid p.tenant_id p.instance_id i) (sym named)
          ∙ ap (λ x. artifact_key uuid x.tenant_id x.instance_id b.id) same

  pub record_run-Stored :
      (now : ℕ) (answer : Option String) (phase : Phase)
      → IsReady store uploads uuid s.objects s.backups r phase
      → Stored store uploads uuid (record_run store uploads uuid now answer r phase s)
  unfolding record_backup_success record_backup_failure
  record_run-Stored now answer over ready = h
  record_run-Stored now answer created ready = h
  record_run-Stored now (some why) (gave_up cause) ready = ended
  record_run-Stored now none (gave_up cause) ready = fail-Stored now cause
  record_run-Stored now (some why) (uploaded result) ready = ended
  record_run-Stored now none (uploaded result) ready =
      elim (Bool-cases (is_taken r.backup_id r.instance_id (identity_of result) s.backups)) [
        | inl taken ↦ rw taken ended
        | inr free ↦ rw free (succeed-Stored now result ready)
      ]
