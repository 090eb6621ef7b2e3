-- ===== src/Backup/Retention/Reconciled.antt =====
-- What an interrupted sweep left, the next one finishes.
use text.Mathlib.Text.{◌==◌ as str_eq}
use fleetward.Base.{
  ℕ, ◌≤◌, ◌≡◌, refl, ap, ◌∙◌, inl, inr, Bool, true, false, not, ◌&&◌, ◌||◌, List, [], ◌∷◌, Option,
  none, some, String, arith, ◌==◌, Bool-cases, is_some, length, All, All-map, exists, where_rows,
  update, take, sort_on, All-sort_on, All-take, All-where_rows,
}
use fleetward.Backup.Retention.{Backup}
use fleetward.Backup.Retention.Listing.{exists-sort_on, length-sort_on, take_all}
use fleetward.Backup.Retention.Sweep.{
  ObjectStore, is_pending_artifact, pending_artifacts, is_unmarked, mark, Progress, started,
  after_delete, delete_artifact, delete_artifacts,
}

-- Whether the id of a row is among those of a list.
abbrev among : List Backup → Backup → Bool
among ps b = exists (λ p. p.id == b.id) ps

among-where_rows :
    (p : Backup → Bool) (rows : List Backup)
    → All (λ b. (p b && not (among (where_rows p rows) b)) ≡ false) rows
among-where_rows p [] = tt
among-where_rows p (b ∷ bs) = elim (Bool-cases (p b)) [
  | inl hit ↦
      let e : where_rows p (b ∷ bs) ≡ b ∷ where_rows p bs = rw hit in
      (
        ap (λ ws. p b && not (among ws b)) e ∙ ground arith,
        All-map (λ c h. ap (λ ws. p c && not (among ws c)) e ∙ ground arith) bs
            (among-where_rows p bs),
      )
  | inr miss ↦
      let e : where_rows p (b ∷ bs) ≡ where_rows p bs = rw miss in
      (
        rw miss,
        All-map (λ c h. ap (λ ws. p c && not (among ws c)) e ∙ h) bs (among-where_rows p bs),
      )
]

module _ (store : ObjectStore) (tenant now : ℕ) (mark_error : ℕ → Option String)
    (deletes : (k : String) (o : store.Objects) → (store.delete k o).1 ≡ none)
    (marks : (id : ℕ) → mark_error id ≡ none) where
  -- The row is of the bucket that this process is configured for, or names none.
  abbrev pub IsHere : Backup → Type 0
  IsHere b = (str_eq b.bucket "" || str_eq b.bucket store.bucket) ≡ true

  -- The pending rows are listed.
  abbrev Listed : List Backup → List Backup → Type 0
  Listed ps = All (λ b. (is_pending_artifact tenant b && not (among ps b)) ≡ false)

  marked-Listed :
      (p : Backup) (ps rows : List Backup)
      → Listed (p ∷ ps) rows
      → Listed ps (update (is_unmarked p.id tenant) (mark now) rows)
  unfolding update
  marked-Listed p ps [] h = tt
  marked-Listed p ps (b ∷ bs) h = elim (Bool-cases (is_unmarked p.id tenant b)) [
    | inl hit ↦ rw hit (ground arith, marked-Listed p ps bs h.1)
    | inr miss ↦ rw miss (ground arith, marked-Listed p ps bs h.1)
  ]

  after_delete-rows :
      (p : Backup) (s : Progress store) (r : store.Objects × Option String)
      → r.1 ≡ none
      → let s' = after_delete store tenant now mark_error p s r in
        (s'.rows ≡ update (is_unmarked p.id tenant) (mark now) s.rows) × (s'.error ≡ s.error)
  after_delete-rows p s (o, some failed) e = absurd (cc)
  after_delete-rows p s (o, none) e = rw (marks p.id) (refl, refl)

  delete_artifact-rows :
      (p : Backup) (s : Progress store)
      → IsHere p
      → let s' = delete_artifact store tenant now mark_error p s in
        (s'.rows ≡ update (is_unmarked p.id tenant) (mark now) s.rows) × (s'.error ≡ s.error)
  unfolding delete_artifact
  delete_artifact-rows p s here =
      let not_elsewhere : (not (str_eq p.bucket "") && not (str_eq p.bucket store.bucket)) ≡ false =
        ground arith in
      rw not_elsewhere (
        after_delete-rows p s (store.delete p.object_key s.objects)
          (deletes p.object_key s.objects))

  delete_artifacts-settled :
      (ps : List Backup) (s : Progress store)
      → All IsHere ps
      → s.error ≡ none
      → Listed ps s.rows
      → let s' = delete_artifacts store tenant now mark_error ps s in
        All (λ b. is_pending_artifact tenant b ≡ false) s'.rows × (s'.error ≡ none)
  unfolding delete_artifacts
  delete_artifacts-settled [] s here e listed = (All-map (λ b h. ground arith) s.rows listed, e)
  delete_artifacts-settled (p ∷ ps) s here e listed =
      let s' = delete_artifact store tenant now mark_error p s in
      let (rows, error) = delete_artifact-rows p s here.0 in
      let no_error : is_some s'.error ≡ false = rw (error, e) in
      rw no_error (
        delete_artifacts-settled ps s' here.1 (error ∙ e)
          (rw rows (marked-Listed p ps s.rows listed)))

  -- Where the store deletes what it is asked to, the database takes each mark, every row is of this
  -- process's bucket and there are no more pending artifacts than a sweep takes on, one pass over
  -- them leaves none pending and reports no error, however many an interrupted sweep left behind.
  pub deletions_finish :
      (limit : ℕ) (objects : store.Objects) (rows : List Backup)
      → All IsHere rows
      → length (where_rows (is_pending_artifact tenant) rows) ≤ limit
      → let s =
          delete_artifacts store tenant now mark_error
            (pending_artifacts tenant limit rows)
            (started store objects rows) in
        All (λ b. is_pending_artifact tenant b ≡ false) s.rows × (s.error ≡ none)
  unfolding pending_artifacts
  deletions_finish limit objects rows here fits =
      let pending = where_rows (is_pending_artifact tenant) rows in
      let order : Backup → ℕ = λ b. b.updated_at in
      delete_artifacts-settled (take limit (sort_on order pending)) (started store objects rows)
        (All-take IsHere limit _ (
          All-sort_on order IsHere pending (
            All-map (λ b h. h.1) pending
              (All-where_rows IsHere (is_pending_artifact tenant) rows here))))
        refl
        (rw (take_all limit (sort_on order pending) (omega (arith, length-sort_on order pending))) (
          All-map (λ b h. sorted_still order b pending h) rows
            (among-where_rows (is_pending_artifact tenant) rows)))
    where
      sorted_still :
          (order : Backup → ℕ) (b : Backup) (ps : List Backup)
          → (is_pending_artifact tenant b && not (among ps b)) ≡ false
          → (is_pending_artifact tenant b && not (among (sort_on order ps) b)) ≡ false
      sorted_still order b ps h = elim (Bool-cases (among ps b)) [
        | inl listed ↦ let e = exists-sort_on order (λ p. p.id == b.id) ps listed in ground arith
        | inr unlisted ↦ ground arith
      ]
