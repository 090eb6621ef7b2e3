-- ===== src/Backup/Observe.antt =====
-- internal/controlplane/backup/observe.go: what an engine's own history says of backups, and the rows
-- that record it. The columns of the evidence itself are left out.
pub mod Repeated
use text.Mathlib.Text.{◌==◌ as str_eq}
use fleetward.Base.{
  ℕ, zero, suc, ◌+◌, ◌-◌, ◌⊎◌, inl, inr, Bool, true, false, not, ◌&&◌, ◌||◌, List, [], ◌∷◌, ◌++◌,
  Option, none, some, String, ltb, ◌==◌, if◌then◌else◌, exists, update, is_some,
}
use fleetward.Scheduler.Rows.{BackupState}
use fleetward.Backup.Retention.{Origin, Backup, is_managed}
use fleetward.Backup.Runs.{RpcError, plugin_error}
use fleetward.Backup.Runs.Recording.{has_identity}

pub data ObservedOutcome : Type 0 where
  unspecified succeeded failed unknown : ObservedOutcome
  other : ℕ → ObservedOutcome

pub record ObservedBackup : Type 0 where
  pub external_id : String
  pub method : String
  pub outcome : ObservedOutcome
  pub size_bytes : ℕ
  pub started_at : Option ℕ
  pub finished_at : Option ℕ

unfoldable pub observed_state : ObservedOutcome → BackupState
observed_state succeeded = BackupState.succeeded
observed_state failed = BackupState.failed
observed_state unknown = BackupState.unknown
observed_state unspecified = BackupState.unknown
observed_state (other n) = BackupState.unknown

abbrev pub observed_method : String → String
observed_method m = if str_eq m "" then "unknown" else m

abbrev pub observed_row : ℕ → ℕ → ℕ → ℕ → ObservedBackup → Backup
observed_row tenant instance_id id now o = record {
  id = id;
  tenant_id = tenant;
  instance_id = instance_id;
  job_id = none;
  method_id = observed_method o.method;
  external_id = some o.external_id;
  checksum_value = "";
  error_message = "";
  started_at = o.started_at;
  origin = Origin.observed;
  state = observed_state o.outcome;
  completed_at = o.finished_at;
  expires_at = none;
  size_bytes = o.size_bytes;
  bucket = "";
  object_key = "";
  artifact_deleted_at = none;
  updated_at = now;
}

-- DO UPDATE SET …
abbrev pub revise : ℕ → ObservedBackup → Backup → Backup
revise now o b = record b {
  state = observed_state o.outcome;
  method_id = observed_method o.method;
  size_bytes = o.size_bytes;
  started_at = o.started_at;
  completed_at = o.finished_at;
  updated_at = now;
}

-- … WHERE backups.origin = 'observed'.
abbrev pub is_revised : ℕ → ObservedBackup → Backup → Bool
is_revised instance_id o b = has_identity instance_id o.external_id b && not (is_managed b.origin)

abbrev pub no_identity : String
no_identity = "the plugin reported a backup with no external_id"

-- The answer of the database is an error, or none.
abbrev pub written : Option String → List Backup × Bool → String ⊎ (List Backup × Bool)
written none r = inr r
written (some why) r = inl why

-- The flag says whether a row was inserted.
unfoldable pub upsert_observed :
    Option String → ℕ → ℕ → ℕ → ℕ → ObservedBackup → List Backup → String ⊎ (List Backup × Bool)
upsert_observed answer tenant instance_id id now o rows =
    if str_eq o.external_id ""
    then inl no_identity
    else if exists (has_identity instance_id o.external_id) rows
    then written answer (update (is_revised instance_id o) (revise now o) rows, false)
    else written answer (rows ++ observed_row tenant instance_id id now o ∷ [], true)

-- The evidence of one answer of ListBackupHistory, and whether it names a next page.
pub record Page : Type 0 where
  pub backups : List ObservedBackup
  pub has_next : Bool

pub record ObserveResult : Type 0 where
  pub discovered : ℕ
  pub updated : ℕ
  pub watermark : ℕ

-- A poll as it goes: the table, the counts, and the error that ends it.
pub record Poll : Type 0 where
  pub rows : List Backup
  pub result : ObserveResult
  pub error : Option String

-- The database's answers, and the ids that it gives to new rows.
pub record UpsertAnswers : Type 0 where
  pub upsert_error : ObservedBackup → Option String
  pub new_id : ObservedBackup → ℕ

-- A timestamp that is absent reads as the start of 1970.
abbrev pub finish_of : ObservedBackup → ℕ
finish_of o = elim o.finished_at [ none ↦ 62135596800000000 | some t ↦ t ]

abbrev pub later_of_two : ℕ → ℕ → ℕ
later_of_two s t = if ltb s t then t else s

abbrev pub counted : ObserveResult → Bool → ObserveResult
counted r true = record r { discovered = r.discovered + 1 }
counted r false = record r { updated = r.updated + 1 }

abbrev pub noticed : ℕ → ObserveResult → ObserveResult
noticed finish r = record r { watermark = later_of_two r.watermark finish }

abbrev pub upserted : ObservedBackup → Poll → String ⊎ (List Backup × Bool) → Poll
upserted o p (inl why) = record p { error = some why }
upserted o p (inr (rows, inserted)) = record p {
  rows = rows;
  result = noticed (finish_of o) (counted p.result inserted);
}

module _ (db : UpsertAnswers) (tenant instance_id now : ℕ) where
  unfoldable pub observe_record : ObservedBackup → Poll → Poll
  observe_record o p =
      upserted o p
        (upsert_observed (db.upsert_error o) tenant instance_id (db.new_id o) now o p.rows)

  unfoldable pub observe_page : List ObservedBackup → Poll → Poll
  observe_page [] p = p
  observe_page (o ∷ os) p =
      let p' = observe_record o p in
      let rest = observe_page os p' in if is_some p'.error then p' else rest

  -- As many pages as the fuel, which is observeMaxPages.
  unfoldable pub observe_pages : ℕ → List (RpcError ⊎ Page) → Poll → Poll
  observe_pages zero answers p = p
  observe_pages (suc n) [] p = p
  observe_pages (suc n) (inl e ∷ answers) p = record p {
    error = some (plugin_error "list backup history" e);
  }
  observe_pages (suc n) (inr page ∷ answers) p =
      let p' = observe_page page.backups p in
      let rest = observe_pages n answers p' in
      if is_some p'.error || not page.has_next then p' else rest

  -- The loop of `ObserveBackupHistory`, behind what prepareObservation refuses.
  unfoldable pub observe_backup_history : List (RpcError ⊎ Page) → List Backup → Poll
  observe_backup_history answers rows = observe_pages 20 answers (record {
    rows = rows;
    result = record { discovered = 0; updated = 0; watermark = 0 };
    error = none;
  })

abbrev pub is_watermark : ℕ → ℕ → Backup → Bool
is_watermark tenant instance_id b =
    b.tenant_id == tenant
    && b.instance_id == instance_id
    && (not (is_managed b.origin) || is_some b.external_id)

abbrev pub newest_of : Option ℕ → Option ℕ → Option ℕ
newest_of none newest = newest
newest_of (some t) none = some t
newest_of (some t) (some u) = some (later_of_two t u)

-- max(completed_at).
unfoldable pub newest_evidence : ℕ → ℕ → List Backup → Option ℕ
newest_evidence tenant instance_id [] = none
newest_evidence tenant instance_id (b ∷ bs) =
    let rest = newest_evidence tenant instance_id bs in
    if is_watermark tenant instance_id b then newest_of b.completed_at rest else rest

-- Six hours before the newest evidence, or thirty days before now.
unfoldable pub observation_watermark : ℕ → ℕ → ℕ → List Backup → ℕ
observation_watermark tenant instance_id now rows = elim (newest_evidence tenant instance_id rows) [
  | none ↦ now - 2592000000000
  | some t ↦ t - 21600000000
]
