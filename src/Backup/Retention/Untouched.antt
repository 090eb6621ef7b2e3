-- ===== src/Backup/Retention/Untouched.antt =====
-- What a whole sweep, the rows and then the objects, leaves as it was.
use text.Mathlib.Text.{◌==◌ as str_eq}
use fleetward.Base.{
  ℕ, zero, suc, ◌<◌, ◌≡◌, refl, sym, ap, ◌∙◌, ◌⊎◌, inl, inr, true, false, not, ◌&&◌, ◌||◌, List, [],
  ◌∷◌, Option, none, some, String, arith, ◌==◌, Bool-cases, ℤ, pos, negsuc, pos_part, is_positive,
  is_some, All, All-map, where_rows, row, row-keyed, row-update_ne, IsKeyed, All-sort_on, All-take,
  All-where_rows,
}
use fleetward.Backup.Retention.{
  Backup, Readers, is_managed, is_expired, is_succeeded, is_owned, is_candidate, is_eligible,
}
use fleetward.Backup.Retention.Expiry.{ineligible_spared, expire_outlived-IsKeyed}
use fleetward.Backup.Retention.Sweep.{
  ObjectStore, RetentionPolicy, expire_outlived, is_pending_artifact, pending_artifacts,
  is_unmarked, mark, Progress, started, mark_deleted, after_delete, delete_artifact,
  delete_artifacts, swept, sweep_retention,
}

module _ (store : ObjectStore) (tenant now : ℕ) (mark_error : ℕ → Option String) where
  open store use {Objects}

  after_delete-row :
      (p : Backup) (s : Progress store) (r : Objects × Option String) (id : ℕ)
      → (p.id == id) ≡ false
      → row (λ b. b.id) id (after_delete store tenant now mark_error p s r).rows
        ≡ row (λ b. b.id) id s.rows
  after_delete-row p s (o, some failed) id other = refl
  after_delete-row p s (o, none) id other = by_answer (mark_error p.id)
    where
      by_answer :
          (e : Option String)
          → row
              (λ b. b.id)
              id
              (mark_deleted store tenant now mark_error p e
                (record s { objects = o; audited = p.id ∷ s.audited })).rows
            ≡ row (λ b. b.id) id s.rows
      by_answer (some message) = refl
      by_answer none =
          row-update_ne (λ b. b.id) (is_unmarked p.id tenant) (mark now) (λ b. refl) id
            (λ b hit e. ground arith) s.rows

  delete_artifact-row :
      (p : Backup) (s : Progress store) (id : ℕ)
      → (p.id == id) ≡ false
      → row (λ b. b.id) id (delete_artifact store tenant now mark_error p s).rows
        ≡ row (λ b. b.id) id s.rows
  unfolding delete_artifact
  delete_artifact-row p s id other =
      elim (Bool-cases (not (str_eq p.bucket "") && not (str_eq p.bucket store.bucket))) [
        | inl elsewhere ↦ rw elsewhere
        | inr here ↦ rw here (after_delete-row p s (store.delete p.object_key s.objects) id other)
      ]

  -- The deletions write only the rows whose objects they delete.
  delete_artifacts-row :
      (ps : List Backup) (s : Progress store) (id : ℕ)
      → All (λ p. (p.id == id) ≡ false) ps
      → row (λ b. b.id) id (delete_artifacts store tenant now mark_error ps s).rows
        ≡ row (λ b. b.id) id s.rows
  unfolding delete_artifacts
  delete_artifacts-row [] s id others = refl
  delete_artifacts-row (p ∷ ps) s id others =
      let s' = delete_artifact store tenant now mark_error p s in
      let first = delete_artifact-row p s id others.0 in
      elim (Bool-cases (is_some s'.error)) [
        | inl ended ↦ rw ended first
        | inr goes_on ↦ rw goes_on (delete_artifacts-row ps s' id others.1 ∙ first)
      ]

  pending_others :
      (limit id : ℕ) (rows : List Backup) (b : Backup)
      → IsKeyed (λ b. b.id) rows
      → row (λ b. b.id) id rows ≡ some b
      → is_pending_artifact tenant b ≡ false
      → All (λ p. (p.id == id) ≡ false) (pending_artifacts tenant limit rows)
  unfolding pending_artifacts
  pending_others limit id rows b keyed here settled = All-take _ limit _ (
      All-sort_on (λ b. b.updated_at) _ (where_rows (is_pending_artifact tenant) rows)
        (All-map
          (λ p hit. elim (Bool-cases (p.id == id)) [
            | inl same ↦
                let e : p ≡ b = hit.1 same in
                absurd (true-false (sym hit.0 ∙ ap (is_pending_artifact tenant) e ∙ settled))
            | inr other ↦ other
          ])
          (where_rows (is_pending_artifact tenant) rows)
          (All-where_rows _ (is_pending_artifact tenant) rows
            (row-keyed (λ b. b.id) id rows keyed here))))
    where
      true-false : true ≡ false → ⊥
      true-false h = cc

  swept-row :
      (limit id n : ℕ) (objects : Objects) (rows : List Backup) (b : Backup)
      → IsKeyed (λ b. b.id) rows
      → row (λ b. b.id) id rows ≡ some b
      → is_pending_artifact tenant b ≡ false
      → row (λ b. b.id) id (swept store tenant now mark_error limit objects (rows, n)).0.rows
        ≡ some b
  swept-row limit id n objects rows b keyed here settled =
      delete_artifacts-row (pending_artifacts tenant limit rows) (started store objects rows) id
        (pending_others limit id rows b keyed here settled)
      ∙ here

  module _ (policy : RetentionPolicy) (readers : Readers) (objects : Objects) (rows : List Backup)
      (keyed : IsKeyed (λ b. b.id) rows) where
    by_policy :
        (id : ℕ) (b : Backup)
        → row (λ b. b.id) id rows ≡ some b
        → (0 < pos_part policy.min_keep
            → row
                (λ b. b.id)
                id
                (swept store tenant now mark_error (pos_part policy.max_per_sweep) objects (
                  expire_outlived tenant
                    (pos_part policy.min_keep)
                    (pos_part policy.max_per_sweep)
                    now
                    readers
                    rows)).0.rows
              ≡ some b)
        → row
            (λ b. b.id)
            id
            (sweep_retention store tenant now mark_error policy readers objects rows).0.rows
          ≡ some b
    unfolding sweep_retention
    by_policy id b here if_swept = elim (Bool-cases policy.is_enabled) [
      | inr disabled ↦ rw disabled here
      | inl enabled ↦
          elim (Bool-cases
            (not (is_positive policy.min_keep) || not (is_positive policy.max_per_sweep))) [
              | inl refused ↦ rw (enabled, refused) here
              | inr sound ↦ rw (enabled, sound) (if_swept (positive policy.min_keep (ground arith)))
            ]
    ]
      where
        positive : (k : ℤ) → is_positive k ≡ true → 0 < pos_part k
        positive (pos zero) h = absurd (cc)
        positive (pos (suc n)) h = omega arith
        positive (negsuc n) h = absurd (cc)

    -- A row that is not eligible, and is not an expired one whose object waits to be deleted, is as
    -- it was.
    pub sweep_spares :
        (id : ℕ) (b : Backup)
        → row (λ b. b.id) id rows ≡ some b
        → (0 < pos_part policy.min_keep
            → is_eligible tenant (pos_part policy.min_keep) readers rows now b ≡ false)
        → is_pending_artifact tenant b ≡ false
        → row
            (λ b. b.id)
            id
            (sweep_retention store tenant now mark_error policy readers objects rows).0.rows
          ≡ some b
    unfolding expire_outlived
    sweep_spares id b here spared settled = by_policy id b here (λ keep.
        swept-row (pos_part policy.max_per_sweep) id
          (expire_outlived tenant (pos_part policy.min_keep) (pos_part policy.max_per_sweep) now
            readers rows).1
          objects _ b
          (expire_outlived-IsKeyed tenant (pos_part policy.min_keep) now readers rows
            (pos_part policy.max_per_sweep) keyed)
          (ineligible_spared tenant (pos_part policy.min_keep) now readers rows
            (pos_part policy.max_per_sweep) keyed id b here (spared keep))
          settled)

    -- Where ids are unique, a sweep leaves alone every backup that is not expired already and
    -- that Fleetward did not take, or that did not succeed, or that has no expiry: its row is as
    -- it was.
    pub sweep_leaves_alone :
        (id : ℕ) (b : Backup)
        → row (λ b. b.id) id rows ≡ some b
        → (is_managed b.origin ≡ false) ⊎ (is_succeeded b.state ≡ false) ⊎ (b.expires_at ≡ none)
        → is_expired b.state ≡ false
        → row
            (λ b. b.id)
            id
            (sweep_retention store tenant now mark_error policy readers objects rows).0.rows
          ≡ some b
    sweep_leaves_alone id b here why open_ =
        sweep_spares id b here (λ _. unfold is_eligible is_candidate is_owned in ground arith)
          (ground arith)
