-- ===== src/Backup/Retention/Previewed.antt =====
-- The preview and the whole sweep agree.
use mathlib.Core.Option
use fleetward.Base.{
  ℕ, ◌≤◌, ◌≡◌, refl, ap, ◌∙◌, inl, inr, Bool, true, false, not, ◌&&◌, List, [], ◌∷◌, Option, none,
  some, String, ◌==◌, if◌then◌else◌, Bool-cases, pos_part, is_positive, is_some, length, exists,
  where_rows, row, row-update, IsKeyed,
}
use fleetward.Scheduler.Rows.{BackupState}
use fleetward.Backup.Retention.{Backup, Readers, is_eligible}
use fleetward.Backup.Retention.Agreement.{preview-expire_outlived}
use fleetward.Backup.Retention.Preview.{preview_retention}
use fleetward.Backup.Retention.Sweep.{
  ObjectStore, RetentionPolicy, expire, expire_outlived, pending_artifacts, is_unmarked, mark,
  Progress, started, mark_deleted, after_delete, delete_artifact, delete_artifacts, swept,
  sweep_retention,
}
use text.Mathlib.Text.{◌==◌ as str_eq}

-- The state of the row of an id, if there is one.
abbrev pub row_state : Option Backup → Option BackupState
row_state none = none
row_state (some b) = some b.state

module _ (store : ObjectStore) (tenant now : ℕ) (mark_error : ℕ → Option String) (id : ℕ) where
  abbrev state_in : List Backup → Option BackupState
  state_in rows = row_state (row (λ b. b.id) id rows)

  mark-state :
      (p : Backup → Bool) (o : Option Backup)
      → row_state (Option.map (λ b. if p b then mark now b else b) o) ≡ row_state o
  mark-state p none = refl
  mark-state p (some b) = elim (Bool-cases (p b)) [
    | inl hit ↦ rw hit refl
    | inr miss ↦ rw miss refl
  ]

  mark_deleted-state :
      (p : Backup) (e : Option String) (s : Progress store)
      → state_in (mark_deleted store tenant now mark_error p e s).rows ≡ state_in s.rows
  mark_deleted-state p (some message) s = refl
  mark_deleted-state p none s =
      ap row_state
        (row-update (λ b. b.id) (is_unmarked p.id tenant) (mark now) (λ b. refl) id s.rows)
      ∙ mark-state (is_unmarked p.id tenant) (row (λ b. b.id) id s.rows)

  after_delete-state :
      (p : Backup) (s : Progress store) (r : store.Objects × Option String)
      → state_in (after_delete store tenant now mark_error p s r).rows ≡ state_in s.rows
  after_delete-state p s (o, some failed) = refl
  after_delete-state p s (o, none) =
      mark_deleted-state p (mark_error p.id) (record s { objects = o; audited = p.id ∷ s.audited })

  delete_artifact-state :
      (p : Backup) (s : Progress store)
      → state_in (delete_artifact store tenant now mark_error p s).rows ≡ state_in s.rows
  unfolding delete_artifact
  delete_artifact-state p s =
      elim (Bool-cases (not (str_eq p.bucket "") && not (str_eq p.bucket store.bucket))) [
        | inl elsewhere ↦ rw elsewhere refl
        | inr here ↦ rw here (after_delete-state p s (store.delete p.object_key s.objects))
      ]

  -- The deletions leave the state of every row as it is.
  delete_artifacts-state :
      (ps : List Backup) (s : Progress store)
      → state_in (delete_artifacts store tenant now mark_error ps s).rows ≡ state_in s.rows
  unfolding delete_artifacts
  delete_artifacts-state [] s = refl
  delete_artifacts-state (p ∷ ps) s =
      let s' = delete_artifact store tenant now mark_error p s in
      elim (Bool-cases (is_some s'.error)) [
        | inl ended ↦ rw ended (delete_artifact-state p s)
        | inr goes_on ↦ rw goes_on (delete_artifacts-state ps s' ∙ delete_artifact-state p s)
      ]

  swept-state :
      (limit : ℕ) (objects : store.Objects) (r : List Backup × ℕ)
      → state_in (swept store tenant now mark_error limit objects r).0.rows ≡ state_in r.0
  swept-state limit objects (rows, n) =
      delete_artifacts-state (pending_artifacts tenant limit rows) (started store objects rows)

module _ (store : ObjectStore) (tenant now : ℕ) (mark_error : ℕ → Option String)
    (policy : RetentionPolicy) (readers : Readers) (objects : store.Objects)
    (rows : List Backup) where
  -- What the preview of the estate lists as expiring is what the next sweep expires, when the sweep
  -- is on: where ids are unique, the floor and the limit of a sweep are positive and no more backups
  -- are eligible than that limit, a row that the preview lists is expired after the whole sweep, and
  -- the state of every other row is what it was, whatever the store and the database answer to the
  -- deletions.
  pub preview_agrees :
      (id : ℕ) (b : Backup)
      → IsKeyed (λ b. b.id) rows
      → policy.is_enabled ≡ true
      → is_positive policy.min_keep ≡ true
      → is_positive policy.max_per_sweep ≡ true
      → length (where_rows (is_eligible tenant (pos_part policy.min_keep) readers rows now) rows)
        ≤ pos_part policy.max_per_sweep
      → row (λ b. b.id) id rows ≡ some b
      → let expiring = (preview_retention tenant policy none now readers rows).expiring in
        let after =
          (sweep_retention store tenant now mark_error policy readers objects rows).0.rows in
        row_state (row (λ b. b.id) id after)
        ≡ some (if exists (λ c. c.id == id) expiring then BackupState.expired else b.state)
  unfolding sweep_retention
  preview_agrees id b keyed enabled floor limited fits here =
      simp (enabled, floor, limited)
        (swept-state store tenant now mark_error id (pos_part policy.max_per_sweep) objects (
            expire_outlived tenant (pos_part policy.min_keep) (pos_part policy.max_per_sweep) now
              readers rows)
          ∙ ap row_state (
              preview-expire_outlived tenant policy now readers rows keyed floor
                (pos_part policy.max_per_sweep) id b fits here)
          ∙ by_listing (
              exists (λ c. c.id == id)
                (preview_retention tenant policy none now readers rows).expiring))
    where
      by_listing :
          (t : Bool)
          → row_state (some (if t then expire now b else b))
            ≡ some (if t then BackupState.expired else b.state)
      by_listing true = refl
      by_listing false = refl
