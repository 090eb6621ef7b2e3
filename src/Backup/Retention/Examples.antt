-- ===== src/Backup/Retention/Examples.antt =====
-- The theorems on retention, each applied to a small table and to a store that is a list of keys.
use fleetward.Base.{
  ℕ, ◌+◌, ◌*◌, ◌≤◌, ◌≡◌, refl, inl, true, false, List, [], ◌∷◌, none, some, String, arith, ◌==◌,
  if◌then◌else◌, pos, pos_part, is_positive, All, exists, affected, row, IsKeyed, sort_on,
}
use fleetward.Scheduler.Rows.{BackupState, VerificationState}
use fleetward.Backup.Retention.{
  Origin, Backup, Readers, stamped_expiry, is_owned, is_of, rank, is_owned_proven, is_proven,
  latest_verification, is_eligible, is_candidate, floor_recent, floor_verified, is_busy, precedes,
}
use fleetward.Backup.Retention.Sweep.{
  RetentionPolicy, expire_outlived, is_pending_artifact, pending_artifacts, started,
  delete_artifacts, sweep_retention,
}
use fleetward.Backup.Shelf.{shelf}
use fleetward.Backup.Retention.Stamped.{retention_is_kept}
use fleetward.Backup.Retention.Untouched.{sweep_leaves_alone}
use fleetward.Backup.Retention.Kept.{newest_kept, last_proof_kept}
use fleetward.Backup.Retention.Artifacts.{IsHonest, sweep_marks_only_gone}
use fleetward.Backup.Retention.Reconciled.{deletions_finish}
use fleetward.Backup.Retention.Preview.{preview_retention}
use fleetward.Backup.Retention.Previewed.{row_state, preview_agrees}

abbrev taken : ℕ → BackupState → ℕ → String → Backup
taken id state at key = record {
  id = id;
  tenant_id = 5;
  instance_id = 7;
  job_id = none;
  method_id = "pg_dump";
  external_id = none;
  checksum_value = "9f86d081";
  error_message = "";
  started_at = none;
  origin = Origin.managed;
  state = state;
  completed_at = some at;
  expires_at = some (at + 10);
  size_bytes = 64;
  bucket = "artifacts";
  object_key = key;
  artifact_deleted_at = none;
  updated_at = at;
}

-- Three successful backups of one instance, of which the oldest was proven restorable, the next may
-- go and the last is the newest; one that an earlier sweep expired, and one that is observed.
abbrev estate : List Backup
estate =
    taken 1 BackupState.succeeded 100 "k1"
    ∷ taken 2 BackupState.succeeded 200 "k2"
    ∷ taken 3 BackupState.succeeded 300 "k3"
    ∷ taken 4 BackupState.expired 50 "k4"
    ∷ record (taken 5 BackupState.succeeded 60 "") { origin = Origin.observed }
    ∷ []

abbrev verdicts : Readers
verdicts = record {
  verifications =
      record { tenant_id = 5; backup_id = 1; status = VerificationState.verified; created_at = 110 }
      ∷ record { tenant_id = 5; backup_id = 3; status = VerificationState.failed; created_at = 310 }
      ∷ [];
  restores = [];
  jobs = [];
}

estate-IsKeyed : IsKeyed (λ b. b.id) estate
unfolding row
estate-IsKeyed = (refl, (refl, (refl, (refl, (refl, tt)))))

abbrev keep_one : RetentionPolicy
keep_one = record { is_enabled = true; min_keep = pos 1; max_per_sweep = pos 10 }

one_outlived : (expire_outlived 5 1 10 1000 verdicts estate).1 ≡ 1
unfolding expire_outlived sort_on is_eligible is_candidate is_owned floor_recent rank affected
    precedes floor_verified is_proven latest_verification is_busy
one_outlived = refl

sweep_leaves_alone_example :
    row
      (λ b. b.id)
      5
      (sweep_retention shelf 5 1000 (λ id. none) keep_one verdicts ("k4" ∷ []) estate).0.rows
    ≡ some (record (taken 5 BackupState.succeeded 60 "") { origin = Origin.observed })
sweep_leaves_alone_example =
    sweep_leaves_alone shelf 5 1000 (λ id. none) keep_one verdicts ("k4" ∷ []) estate estate-IsKeyed
      5 (record (taken 5 BackupState.succeeded 60 "") { origin = Origin.observed })
      (unfold row in refl) (inl refl) refl

newest_kept_example :
    let after =
      (sweep_retention shelf 5 1000 (λ id. none) keep_one verdicts ("k4" ∷ []) estate).0.rows in
    (m : Backup) × (is_of (is_owned 5) 7 m ≡ true)
    × (rank (is_owned 5) estate m ≡ 0)
    × (row (λ b. b.id) m.id after ≡ some m)
newest_kept_example =
    newest_kept shelf 5 1000 (λ id. none) keep_one verdicts ("k4" ∷ []) estate estate-IsKeyed 7
      (unfold is_owned in refl)

last_proof_kept_example :
    let after =
      (sweep_retention shelf 5 1000 (λ id. none) keep_one verdicts ("k4" ∷ []) estate).0.rows in
    (m : Backup) × (is_of (is_owned_proven 5 verdicts) 7 m ≡ true)
    × (rank (is_owned_proven 5 verdicts) estate m ≡ 0)
    × (row (λ b. b.id) m.id after ≡ some m)
last_proof_kept_example =
    last_proof_kept shelf 5 1000 (λ id. none) keep_one verdicts ("k4" ∷ []) estate estate-IsKeyed 7
      (unfold is_owned is_proven latest_verification in refl)

sweep_marks_only_gone_example :
    let s =
      (sweep_retention shelf 5 1000 (λ id. none) keep_one verdicts ("k4" ∷ "k1" ∷ []) estate).0 in
    All (IsHonest shelf s.objects) s.rows
sweep_marks_only_gone_example =
    sweep_marks_only_gone shelf 5 1000 (λ id. none) keep_one verdicts ("k4" ∷ "k1" ∷ []) estate
      estate-IsKeyed (inl refl, (inl refl, (inl refl, (inl refl, (inl refl, tt)))))

deletions_finish_example :
    let s =
      delete_artifacts shelf 5 1000
        (λ id. none)
        (pending_artifacts 5 10 estate)
        (started shelf ("k4" ∷ []) estate) in
    All (λ b. is_pending_artifact 5 b ≡ false) s.rows × (s.error ≡ none)
deletions_finish_example =
    deletions_finish shelf 5 1000 (λ id. none) (λ k o. refl) (λ id. refl) 10 ("k4" ∷ []) estate
      (refl, (refl, (refl, (refl, (refl, tt))))) (omega arith)

preview_agrees_example :
    let expiring = (preview_retention 5 keep_one none 1000 verdicts estate).expiring in
    let after =
      (sweep_retention shelf 5 1000 (λ id. none) keep_one verdicts ("k4" ∷ []) estate).0.rows in
    row_state (row (λ b. b.id) 2 after)
    ≡ some (if exists (λ c. c.id == 2) expiring then BackupState.expired else BackupState.succeeded)
preview_agrees_example =
    preview_agrees shelf 5 1000 (λ id. none) keep_one verdicts ("k4" ∷ []) estate 2
      (taken 2 BackupState.succeeded 200 "k2") estate-IsKeyed refl refl refl
      (unfold is_eligible is_candidate is_owned floor_recent rank affected precedes floor_verified
          is_proven latest_verification is_busy in
        omega arith)
      (unfold row in refl)

-- Stamped with a retention of one day at completion.
abbrev day_old : Backup
day_old = record (taken 6 BackupState.succeeded 5 "k6") { expires_at = some 86400000005 }

retention_is_kept_example :
    (is_positive (pos 1) ≡ true) × (5 + pos_part (pos 1) * 86400000000 ≤ 86400000005)
retention_is_kept_example =
    retention_is_kept 5 1 86400000005 5 verdicts
      (taken 7 BackupState.succeeded 9 "k7" ∷ day_old ∷ []) day_old (pos 1)
      (unfold stamped_expiry in refl)
      (unfold is_eligible is_candidate is_owned floor_recent rank affected precedes floor_verified
          is_proven latest_verification is_busy in
        refl)
