-- ===== src/Backup/System/Backed/Growth.antt =====
-- Rows and runs that are new.
use fleetward.Base.{
  ℕ, ◌≡◌, subst, inl, inr, String, [], ◌∷◌, ◌++◌, none, row, row-append, row-inserted,
  IsKeyed-inserted,
}
use fleetward.Backup.Retention.{Backup}
use fleetward.Backup.Retention.Sweep.{ObjectStore}
use fleetward.Backup.Runs.Transfer.{Uploads}
use fleetward.Backup.System.{Phase, created, over, uploaded, gave_up, Run, System, find_run}
use fleetward.Backup.System.Backed.{Awaits, IsBacked, IsOwn, IsReady, Stored}

module _ (store : ObjectStore) (uploads : Uploads store) (uuid : ℕ → String)
    (s : System store uploads uuid) (h : Stored store uploads uuid s) where
  pub insert-Stored :
      (n : Backup)
      → row (λ b. b.id) n.id s.backups ≡ none
      → IsBacked store uploads uuid s.objects n × IsOwn store uploads uuid n
      → Stored store uploads uuid (record s { backups = s.backups ++ n ∷ [] })
  insert-Stored n free sound = record {
    keyed = IsKeyed-inserted (λ b. b.id) s.backups n free h.keyed;
    runs_keyed = h.runs_keyed;
    rows = λ id b found. elim (row-inserted (λ b. b.id) id s.backups n found) [
      | inl old ↦ h.rows id b old
      | inr new ↦
          subst (λ x. IsBacked store uploads uuid s.objects x × IsOwn store uploads uuid x) new
            sound
    ];
    ready = λ id r found. still r r.phase (h.ready id r found);
  }
    where
      waiting : (r : Run) → Awaits s.backups r → Awaits (s.backups ++ n ∷ []) r
      waiting r (b, here, pending, tenant, instance_id) = (
        b,
        row-append (λ b. b.id) r.backup_id s.backups (n ∷ []) here,
        pending,
        tenant,
        instance_id,
      )

      still :
          (r : Run) (phase : Phase)
          → IsReady store uploads uuid s.objects s.backups r phase
          → IsReady store uploads uuid s.objects (s.backups ++ n ∷ []) r phase
      still r over ready = tt
      still r created ready = waiting r ready
      still r (gave_up why) ready = waiting r ready
      still r (uploaded result) ready = (waiting r ready.0, ready.1, ready.2)

  pub enter-Stored :
      (r : Run)
      → find_run store uploads uuid r.backup_id s.runs ≡ none
      → IsReady store uploads uuid s.objects s.backups r r.phase
      → Stored store uploads uuid (record s { runs = s.runs ++ r ∷ [] })
  enter-Stored r free ready = record {
    keyed = h.keyed;
    runs_keyed = IsKeyed-inserted (λ r. r.backup_id) s.runs r free h.runs_keyed;
    rows = h.rows;
    ready = λ id r' found. elim (row-inserted (λ r. r.backup_id) id s.runs r found) [
      | inl old ↦ h.ready id r' old
      | inr new ↦ subst (λ x. IsReady store uploads uuid s.objects s.backups x x.phase) new ready
    ];
  }
