-- ===== src/Backup/Retention/Artifacts.antt =====
-- The objects behind expired rows: a row is marked only once its object is gone, and what an
-- interrupted sweep left is finished by a later one.
use text.Mathlib.Text.{◌==◌ as str_eq}
use fleetward.Base.{
  ℕ, ◌≡◌, refl, sym, ap, subst, ◌∙◌, ◌⊎◌, inl, inr, true, false, not, ◌&&◌, ◌||◌, List, [], ◌∷◌,
  Option, none, some, String, arith, ◌==◌, Bool-cases, pos_part, is_positive, is_some, All, All-map,
  All-update, All-true, where_rows, update, affected, update-All, row-keyed, IsKeyed,
  IsKeyed-update, All-sort_on, All-take, All-where_rows,
}
use fleetward.Backup.Retention.{Backup, Readers}
use fleetward.Backup.Retention.Expiry.{rows-IsKeyed}
use fleetward.Backup.Retention.Sweep.{
  ObjectStore, RetentionPolicy, expire, outlived_ids, is_named, expire_outlived,
  is_pending_artifact, pending_artifacts, is_unmarked, mark, Progress, started, mark_deleted,
  after_delete, delete_artifact, delete_artifacts, swept, sweep_retention,
}

module _ (store : ObjectStore) where
  open store use {Objects, present, delete}

  -- A row that says that its artifact was deleted has no object.
  abbrev pub IsHonest : Objects → Backup → Type 0
  IsHonest objects b =
      (is_some b.artifact_deleted_at ≡ false) ⊎ (present b.object_key objects ≡ false)

  -- The row of a pending artifact names the object that is to be deleted.
  abbrev Matches : List Backup → Backup → Type 0
  Matches rows p = All (λ b. (b.id == p.id) ≡ true → b.object_key ≡ p.object_key) rows

  module _ (tenant now : ℕ) (mark_error : ℕ → Option String) where
    -- One step of the loop, by what it does to the two of them.
    record Keeps (ps : List Backup) (s : Progress store) : Type 0 where
      pub honest : All (IsHonest s.objects) s.rows
      pub matching : All (Matches s.rows) ps

    delete-IsHonest :
        (key : String) (o : Objects) (rows : List Backup)
        → All (IsHonest o) rows
        → All (IsHonest (delete key o).0) rows
    delete-IsHonest key o = All-map (λ b h. elim h [
      | inl unmarked ↦ inl unmarked
      | inr gone ↦ inr (store.delete_only key b.object_key o gone)
    ])

    mark-IsHonest :
        (p : Backup) (o : Objects) (rows : List Backup)
        → present p.object_key o ≡ false
        → Matches rows p
        → All (IsHonest o) rows
        → All (IsHonest o) (update (is_unmarked p.id tenant) (mark now) rows)
    mark-IsHonest p o rows gone matches =
        All-update (IsHonest o) (is_unmarked p.id tenant) (mark now) rows (
          All-map (λ b same hit h. inr (ap (λ k. present k o) (same (ground arith)) ∙ gone)) rows
            matches)

    still_matching :
        (id : ℕ) (rows : List Backup) (ps : List Backup)
        → All (Matches rows) ps
        → All (Matches (update (is_unmarked id tenant) (mark now) rows)) ps
    still_matching id rows = All-map (λ p matches.
        All-update (λ b. (b.id == p.id) ≡ true → b.object_key ≡ p.object_key)
          (is_unmarked id tenant) (mark now) rows (All-true _ (λ b hit h. h) rows) matches)

    after_delete-Keeps :
        (p : Backup) (ps : List Backup) (s : Progress store) (r : Objects × Option String)
        → delete p.object_key s.objects ≡ r
        → Keeps (p ∷ ps) s
        → Keeps ps (after_delete store tenant now mark_error p s r)
    after_delete-Keeps p ps s (o, some failed) e k = record {
      honest =
          subst (λ o'. All (IsHonest o') s.rows) (ap (λ r. r.0) e)
            (delete-IsHonest p.object_key s.objects s.rows k.honest);
      matching = k.matching.1;
    }
    after_delete-Keeps p ps s (o, none) e k = by_answer (mark_error p.id)
      where
        honest_now : All (IsHonest o) s.rows
        honest_now =
            subst (λ o'. All (IsHonest o') s.rows) (ap (λ r. r.0) e)
              (delete-IsHonest p.object_key s.objects s.rows k.honest)

        gone : present p.object_key o ≡ false
        gone =
            ap (λ r. present p.object_key r.0) (sym e)
            ∙ store.delete_gone p.object_key s.objects (ap (λ r. r.1) e)

        by_answer :
            (a : Option String)
            → Keeps ps (
                mark_deleted store tenant now mark_error p a
                  (record s { objects = o; audited = p.id ∷ s.audited }))
        by_answer (some message) = record { honest = honest_now; matching = k.matching.1 }
        by_answer none = record {
          honest = mark-IsHonest p o s.rows gone k.matching.0 honest_now;
          matching = still_matching p.id s.rows ps k.matching.1;
        }

    delete_artifact-Keeps :
        (p : Backup) (ps : List Backup) (s : Progress store)
        → Keeps (p ∷ ps) s
        → Keeps ps (delete_artifact store tenant now mark_error p s)
    unfolding delete_artifact
    delete_artifact-Keeps p ps s k =
        elim (Bool-cases (not (str_eq p.bucket "") && not (str_eq p.bucket store.bucket))) [
          | inl elsewhere ↦ rw elsewhere (record { honest = k.honest; matching = k.matching.1 })
          | inr here ↦ rw here (after_delete-Keeps p ps s (delete p.object_key s.objects) refl k)
        ]

    delete_artifacts-IsHonest :
        (ps : List Backup) (s : Progress store)
        → Keeps ps s
        → let s' = delete_artifacts store tenant now mark_error ps s in
          All (IsHonest s'.objects) s'.rows
    unfolding delete_artifacts
    delete_artifacts-IsHonest [] s k = k.honest
    delete_artifacts-IsHonest (p ∷ ps) s k =
        let s' = delete_artifact store tenant now mark_error p s in
        let k' = delete_artifact-Keeps p ps s k in
        elim (Bool-cases (is_some s'.error)) [
          | inl ended ↦ rw ended k'.honest
          | inr goes_on ↦ rw goes_on (delete_artifacts-IsHonest ps s' k')
        ]

    pending-Matches :
        (limit : ℕ) (rows : List Backup)
        → IsKeyed (λ b. b.id) rows
        → All (Matches rows) (pending_artifacts tenant limit rows)
    unfolding pending_artifacts
    pending-Matches limit rows keyed = All-take _ limit _ (
        All-sort_on (λ b. b.updated_at) _ (where_rows (is_pending_artifact tenant) rows)
          (All-map (λ p hit. hit.1) (where_rows (is_pending_artifact tenant) rows)
            (All-where_rows (Matches rows) (is_pending_artifact tenant) rows (
              All-map
                (λ p there.
                  All-map (λ b same hit. ap (λ x. x.object_key) (same hit)) rows
                    (row-keyed (λ b. b.id) p.id rows keyed there))
                rows (rows-IsKeyed (λ b. b.id) rows keyed)))))

    swept-IsHonest :
        (limit n : ℕ) (objects : Objects) (rows : List Backup)
        → IsKeyed (λ b. b.id) rows
        → All (IsHonest objects) rows
        → let s = (swept store tenant now mark_error limit objects (rows, n)).0 in
          All (IsHonest s.objects) s.rows
    swept-IsHonest limit n objects rows keyed honest =
        delete_artifacts-IsHonest (pending_artifacts tenant limit rows) (started store objects rows)
          (record { honest = honest; matching = pending-Matches limit rows keyed })

    -- A sweep marks a row only when its object is gone: where ids are unique, if every row that
    -- says that its artifact was deleted has no object, so it is after the sweep, whatever the
    -- store and the database answered on the way.
    pub sweep_marks_only_gone :
        (policy : RetentionPolicy) (readers : Readers) (objects : Objects) (rows : List Backup)
        → IsKeyed (λ b. b.id) rows
        → All (IsHonest objects) rows
        → let s = (sweep_retention store tenant now mark_error policy readers objects rows).0 in
          All (IsHonest s.objects) s.rows
    unfolding sweep_retention expire_outlived
    sweep_marks_only_gone policy readers objects rows keyed honest =
        elim (Bool-cases policy.is_enabled) [
          | inr disabled ↦ rw disabled honest
          | inl enabled ↦
              elim (Bool-cases
                (not (is_positive policy.min_keep) || not (is_positive policy.max_per_sweep))) [
                  | inl refused ↦ rw (enabled, refused) honest
                  | inr sound ↦
                      let k = pos_part policy.min_keep in
                      let limit = pos_part policy.max_per_sweep in
                      let ids = outlived_ids tenant k limit now readers rows in
                      rw (enabled, sound)
                        (swept-IsHonest limit (affected (is_named tenant ids) rows) objects
                          (update (is_named tenant ids) (expire now) rows)
                          (IsKeyed-update (λ b. b.id) (is_named tenant ids) (expire now) (λ b. refl)
                            rows keyed)
                          (update-All (IsHonest objects) (is_named tenant ids) (expire now)
                            (λ b h hit. h) rows honest))
                ]
        ]
