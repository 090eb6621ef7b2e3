-- ===== src/Backup/Retention/Sweep.antt =====
-- `SweepRetention`: the rows expire first, and then the objects go. The object store is an
-- interface, internal/storage/objstore.
use text.Mathlib.Text.{◌==◌ as str_eq}
use fleetward.Base.{
  ℕ, ◌+◌, ◌≡◌, ◌≢◌, Bool, true, false, not, ◌&&◌, ◌||◌, List, [], ◌∷◌, map, Option, none, some,
  String, ◌==◌, if◌then◌else◌, ℤ, pos_part, is_positive, is_some, exists, where_rows, update,
  affected, take, sort_on,
}
use fleetward.Scheduler.Rows.{BackupState}
use fleetward.Backup.Retention.{Backup, Readers, is_expired, is_eligible}

-- `Delete`, which reports no error also where there was no object, and may fail for other reasons.
-- A deletion that does not fail leaves no object under its key, and none puts an object anywhere.
pub record ObjectStore : Type 1 where
  pub Objects : Type 0
  pub bucket : String
  pub present : String → Objects → Bool
  pub delete : String → Objects → Objects × Option String
  pub delete_gone :
      (k : String) (o : Objects) → (delete k o).1 ≡ none → present k (delete k o).0 ≡ false
  pub delete_only :
      (k k' : String) (o : Objects) → present k' o ≡ false → present k' (delete k o).0 ≡ false
  pub delete_other :
      (k k' : String) (o : Objects)
      → k ≢ k'
      → present k' o ≡ true
      → present k' (delete k o).0 ≡ true

-- How often it sweeps is the scheduler's.
pub record RetentionPolicy : Type 0 where
  pub is_enabled : Bool
  pub min_keep : ℤ
  pub max_per_sweep : ℤ

abbrev pub expire : ℕ → Backup → Backup
expire now b = record b { state = BackupState.expired; updated_at = now }

abbrev pub expiry : Backup → ℕ
expiry b = elim b.expires_at [ none ↦ 0 | some t ↦ t ]

-- SELECT c.id … ORDER BY c.expires_at LIMIT $3.
abbrev pub outlived_ids : ℕ → ℕ → ℕ → ℕ → Readers → List Backup → List ℕ
outlived_ids tenant min_keep limit now readers rows =
    map (λ b. b.id)
      (take limit (sort_on expiry (where_rows (is_eligible tenant min_keep readers rows now) rows)))

abbrev pub is_named : ℕ → List ℕ → Backup → Bool
is_named tenant ids b = b.tenant_id == tenant && exists (λ i. i == b.id) ids

unfoldable pub expire_outlived : ℕ → ℕ → ℕ → ℕ → Readers → List Backup → List Backup × ℕ
expire_outlived tenant min_keep limit now readers rows =
    let ids = outlived_ids tenant min_keep limit now readers rows in
    (update (is_named tenant ids) (expire now) rows, affected (is_named tenant ids) rows)

-- An expired row whose object may still be there.
abbrev pub is_pending_artifact : ℕ → Backup → Bool
is_pending_artifact tenant b =
    b.tenant_id == tenant
    && is_expired b.state
    && not (is_some b.artifact_deleted_at)
    && not (str_eq b.object_key "")

unfoldable pub pending_artifacts : ℕ → ℕ → List Backup → List Backup
pending_artifacts tenant limit rows =
    take limit (sort_on (λ b. b.updated_at) (where_rows (is_pending_artifact tenant) rows))

abbrev pub is_unmarked : ℕ → ℕ → Backup → Bool
is_unmarked id tenant b = b.id == id && b.tenant_id == tenant && not (is_some b.artifact_deleted_at)

abbrev pub mark : ℕ → Backup → Backup
mark now b = record b { artifact_deleted_at = some now; updated_at = now }

-- The policy that is refused, with what it got, and the statement whose error ends a sweep.
pub data SweepError : Type 0 where
  bad_policy : ℤ → ℤ → SweepError
  not_recorded : String → SweepError

module _ (store : ObjectStore) where
  open store use {Objects, bucket, delete}

  -- The sweep as it goes: the store, the table, the audit log's entries, the counts that it
  -- returns and the error, if any, that ends it.
  pub record Progress : Type 0 where
    pub objects : Objects
    pub rows : List Backup
    pub audited : List ℕ
    pub deleted : ℕ
    pub bytes : ℕ
    pub unreachable : ℕ
    pub error : Option SweepError

  module _ (tenant now : ℕ) (mark_error : ℕ → Option String) where
    -- `mark_error` is the database's answer to the statement that marks a row.
    abbrev pub mark_deleted : Backup → Option String → Progress → Progress
    mark_deleted p (some message) s = record s { error = some (not_recorded message) }
    mark_deleted p none s = record s {
      rows = update (is_unmarked p.id tenant) (mark now) s.rows;
      deleted = s.deleted + 1;
      bytes = s.bytes + p.size_bytes;
    }

    abbrev pub after_delete : Backup → Progress → Objects × Option String → Progress
    after_delete p s (objects, some failed) = record s {
      objects = objects;
      unreachable = s.unreachable + 1;
    }
    after_delete p s (objects, none) =
        mark_deleted p (mark_error p.id)
          (record s { objects = objects; audited = p.id ∷ s.audited })

    -- A row of another bucket is left alone.
    unfoldable pub delete_artifact : Backup → Progress → Progress
    delete_artifact p s =
        if not (str_eq p.bucket "") && not (str_eq p.bucket bucket)
        then record s { unreachable = s.unreachable + 1 }
        else after_delete p s (delete p.object_key s.objects)

    unfoldable pub delete_artifacts : List Backup → Progress → Progress
    unfolding delete_artifact
    delete_artifacts [] s = s
    delete_artifacts (p ∷ ps) s =
        let s' = delete_artifact p s in
        let rest = delete_artifacts ps s' in if is_some s'.error then s' else rest

  pub record RetentionResult : Type 0 where
    pub expired : ℕ
    pub artifacts_deleted : ℕ
    pub bytes_reclaimed : ℕ
    pub unreachable : ℕ
    pub error : Option SweepError

  abbrev pub no_result : Option SweepError → RetentionResult
  no_result e = record {
    expired = 0;
    artifacts_deleted = 0;
    bytes_reclaimed = 0;
    unreachable = 0;
    error = e;
  }

  abbrev pub started : Objects → List Backup → Progress
  started objects rows = record {
    objects = objects;
    rows = rows;
    audited = [];
    deleted = 0;
    bytes = 0;
    unreachable = 0;
    error = none;
  }

  abbrev pub swept :
      ℕ → ℕ → (ℕ → Option String) → ℕ → Objects → List Backup × ℕ → Progress × RetentionResult
  swept tenant now mark_error limit objects (rows, n) =
      let s =
        delete_artifacts tenant now mark_error (pending_artifacts tenant limit rows)
          (started objects rows) in
      (
        s,
        record {
          expired = n;
          artifacts_deleted = s.deleted;
          bytes_reclaimed = s.bytes;
          unreachable = s.unreachable;
          error = s.error;
        },
      )

  -- The query runs at `now`, and so does what follows it.
  unfoldable pub sweep_retention :
      ℕ
      → ℕ
      → (ℕ → Option String)
      → RetentionPolicy
      → Readers
      → Objects
      → List Backup
      → Progress × RetentionResult
  sweep_retention tenant now mark_error policy readers objects rows =
      if not policy.is_enabled
      then (started objects rows, no_result none)
      else if not (is_positive policy.min_keep) || not (is_positive policy.max_per_sweep)
      then (
        started objects rows,
        no_result (some (bad_policy policy.min_keep policy.max_per_sweep)),
      )
      else swept tenant now mark_error (pos_part policy.max_per_sweep) objects (
          expire_outlived tenant (pos_part policy.min_keep) (pos_part policy.max_per_sweep) now
            readers rows)
