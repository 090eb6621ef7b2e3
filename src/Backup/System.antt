-- ===== src/Backup/System.antt =====
-- Runs, reaps, polls and sweeps as they interleave: the statements that any number of control planes
-- send to `backups`, and what they do to the object store.
pub mod Keys
pub mod Backed
pub mod Race
mod Examples
use text.Mathlib.Text.{◌==◌ as str_eq}
use fleetward.Base.{
  ℕ, ◌⊎◌, inl, inr, Bool, true, false, not, ◌&&◌, ◌||◌, List, [], ◌∷◌, ◌++◌, Option, none, some,
  String, ◌==◌, if◌then◌else◌, ℤ, exists, update, row, is_some,
}
use fleetward.Scheduler.Rows.{BackupState, BackupRow}
use fleetward.Scheduler.Reaper.{reap_message, is_orphaned_backup}
use fleetward.Backup.Retention.{Backup, Readers, is_expired}
use fleetward.Backup.Retention.Sweep.{ObjectStore, expire_outlived, started, delete_artifact}
use fleetward.Backup.Observe.{ObservedBackup, upsert_observed}
use fleetward.Backup.Runs.{RpcError}
use fleetward.Backup.Runs.Transfer.{BackupResult, Recv, Uploads, transfer}
use fleetward.Backup.Runs.Recording.{
  artifact_key, created_backup, record_backup_success, record_backup_failure,
}

-- How far `execute` is: its rows are there, the transfer has ended with a result or an error, or the
-- outcome was recorded, or could not be.
pub data Phase : Type 0 where
  created over : Phase
  uploaded : BackupResult → Phase
  gave_up : String → Phase

-- A call of `execute`, whose process holds what the tables do not.
pub record Run : Type 0 where
  pub backup_id : ℕ
  pub tenant_id : ℕ
  pub instance_id : ℕ
  pub retention_days : ℤ
  pub phase : Phase

-- A row as the reaper sees it.
abbrev pub reaper_view : Backup → BackupRow
reaper_view b = record {
  id = b.id;
  job_id = b.job_id;
  state = b.state;
  error_message = b.error_message;
  completed_at = b.completed_at;
  updated_at = b.updated_at;
}

abbrev pub close_orphan : ℕ → Backup → Backup
close_orphan now b = record b {
  state = BackupState.failed;
  error_message = reap_message;
  completed_at = some now;
  updated_at = now;
}

-- The statements: a run begins, transfers and records; a reap closes what the jobs it names have
-- orphaned; a poll records one piece of evidence; a sweep expires rows, and deletes the object of an
-- expired row that it listed. The last argument of most is the answer of the database.
pub data Event : Type 0 where
  begins : (tenant id instance_id job : ℕ) → String → ℤ → (now : ℕ) → Event
  transfers : (id : ℕ) → RpcError ⊎ List Recv → Event
  records : (id now : ℕ) → Option String → Event
  reaps : List ℕ → (now : ℕ) → Event
  polls : (tenant instance_id id now : ℕ) → ObservedBackup → Option String → Event
  expires : (tenant min_keep limit now : ℕ) → Readers → Event
  deletes : (tenant id now : ℕ) → Option String → Event

module _ (store : ObjectStore) (uploads : Uploads store) (uuid : ℕ → String) where
  pub record System : Type 0 where
    pub objects : store.Objects
    pub backups : List Backup
    pub runs : List Run

  abbrev pub find_run : ℕ → List Run → Option Run
  find_run = row (λ r. r.backup_id)

  abbrev pub turn : ℕ → Phase → List Run → List Run
  turn id phase = update (λ r. r.backup_id == id) (λ r. record r { phase = phase })

  abbrev pub begin : ℕ → ℕ → ℕ → ℕ → String → ℤ → ℕ → System → System
  begin tenant id instance_id job method retention_days now s = record s {
    backups = s.backups ++ created_backup tenant id instance_id job method now ∷ [];
    runs =
        s.runs
        ++ record {
          backup_id = id;
          tenant_id = tenant;
          instance_id = instance_id;
          retention_days = retention_days;
          phase = created;
        }
          ∷ [];
  }

  abbrev pub transferred : Run → System → store.Objects × (String ⊎ BackupResult) → System
  transferred r s (o, inl why) = record s {
    objects = o;
    runs = turn r.backup_id (gave_up why) s.runs;
  }
  transferred r s (o, inr result) = record s {
    objects = o;
    runs = turn r.backup_id (uploaded result) s.runs;
  }

  abbrev pub transfer_run : RpcError ⊎ List Recv → Run → Phase → System → System
  transfer_run answer r created s = transferred r s (
      transfer store uploads (artifact_key uuid r.tenant_id r.instance_id r.backup_id) answer
        s.objects)
  transfer_run answer r _ s = s

  -- An outcome that cannot be recorded is logged.
  abbrev pub recorded : Run → System → String ⊎ List Backup → System
  recorded r s (inl why) = record s { runs = turn r.backup_id over s.runs }
  recorded r s (inr rows) = record s { backups = rows; runs = turn r.backup_id over s.runs }

  abbrev pub record_run : ℕ → Option String → Run → Phase → System → System
  record_run now answer r (uploaded result) s = recorded r s (
      record_backup_success answer r.tenant_id r.backup_id r.instance_id now r.retention_days result
        s.backups)
  record_run now answer r (gave_up why) s =
      recorded r s (record_backup_failure answer r.tenant_id r.backup_id now why s.backups)
  record_run now answer r _ s = s

  -- Such a row stays expired, so it does not matter how long ago it was listed.
  abbrev pub is_listed : ℕ → Backup → Bool
  is_listed tenant b = b.tenant_id == tenant && is_expired b.state && not (str_eq b.object_key "")

  -- The object first, and then the mark.
  abbrev pub deleted : ℕ → ℕ → Option String → Backup → System → System
  deleted tenant now answer p s =
      let done =
        delete_artifact store tenant now (λ id. answer) p (started store s.objects s.backups) in
      record s { objects = done.objects; backups = done.rows }

  abbrev pub polled : System → String ⊎ (List Backup × Bool) → System
  polled s (inl why) = s
  polled s (inr (rows, inserted)) = record s { backups = rows }

  -- Nothing happens where there is no such row.
  abbrev pub where_found : {A : Type 0} → System → (A → System) → Option A → System
  where_found s go none = s
  where_found s go (some a) = go a

  abbrev pub delete_listed : ℕ → ℕ → Option String → System → Backup → System
  delete_listed tenant now answer s p =
      if is_listed tenant p then deleted tenant now answer p s else s

  unfoldable pub step : System → Event → System
  step s (begins tenant id instance_id job method retention_days now) =
      if is_some (row (λ b. b.id) id s.backups) || is_some (find_run id s.runs)
      then s
      else begin tenant id instance_id job method retention_days now s
  step s (transfers id answer) =
      where_found s (λ r. transfer_run answer r r.phase s) (find_run id s.runs)
  step s (records id now answer) =
      where_found s (λ r. record_run now answer r r.phase s) (find_run id s.runs)
  step s (reaps ids now) = record s {
    backups = update (λ b. is_orphaned_backup ids (reaper_view b)) (close_orphan now) s.backups;
  }
  step s (polls tenant instance_id id now o answer) =
      if is_some (row (λ b. b.id) id s.backups) || is_some (find_run id s.runs)
      then s
      else polled s (upsert_observed answer tenant instance_id id now o s.backups)
  step s (expires tenant min_keep limit now readers) = record s {
    backups = (expire_outlived tenant min_keep limit now readers s.backups).0;
  }
  step s (deletes tenant id now answer) =
      where_found s (delete_listed tenant now answer s) (row (λ b. b.id) id s.backups)

  unfoldable pub run : System → List Event → System
  run s [] = s
  run s (e ∷ es) = run (step s e) es
