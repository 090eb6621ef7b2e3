-- ===== src/Backup/System/Backed/Deletions.antt =====
-- The deletion of an expired row's object.
use text.Mathlib.Text.{◌==◌ as str_eq}
use text.Mathlib.TextEquality.{eq_iff}
use fleetward.Base.{
  ℕ, ◌≡◌, refl, sym, ap, subst, ◌∙◌, inl, inr, true, false, not, ◌&&◌, Option, none, some, String,
  arith, Bool-cases, update, row,
}
use fleetward.Scheduler.Rows.{BackupState}
use fleetward.Backup.Retention.{Backup, is_succeeded, is_expired}
use fleetward.Backup.Retention.Sweep.{
  ObjectStore, is_unmarked, mark, started, after_delete, delete_artifact,
}
use fleetward.Backup.Runs.Transfer.{Uploads}
use fleetward.Backup.System.{System, is_listed, deleted}
use fleetward.Backup.System.Keys.{has_slash, artifact_key-apart}
use fleetward.Backup.System.Backed.{own_key, run_key, Stored, objects-Stored, update-Stored}
use fleetward.Backup.System.Backed.Steps.{rows_apart}
use fleetward.Backup.System.Backed.Objects.{key_of_row}

module _ (store : ObjectStore) (uploads : Uploads store) (uuid : ℕ → String)
    (injective : (m n : ℕ) → uuid m ≡ uuid n → m ≡ n) (plain : (n : ℕ) → has_slash (uuid n) ≡ false)
    (s : System store uploads uuid) (h : Stored store uploads uuid s) (tenant now : ℕ) (id : ℕ)
    (p : Backup) (here : row (λ b. b.id) id s.backups ≡ some p)
    (listed : is_listed store uploads uuid tenant p ≡ true) where
  mark-Stored :
      (z : System store uploads uuid)
      → Stored store uploads uuid z
      → Stored store uploads uuid
          (record z { backups = update (is_unmarked p.id tenant) (mark now) z.backups })
  mark-Stored z hz =
      update-Stored store uploads uuid z hz (is_unmarked p.id tenant) (mark now) (λ b. refl)
        (λ b. (refl, refl)) (λ i b found hit. hz.rows i b found)
        (λ i r b found there open_ pending hit. pending)

  -- It names its own artifact.
  names_own : p.object_key ≡ own_key store uploads uuid p
  names_own = elim (h.rows id p here).1 [
    | inr own ↦ own
    | inl nothing ↦
        let empty : str_eq p.object_key "" ≡ true = (eq_iff p.object_key "").1 nothing in
        absurd (ground arith)
  ]

  is_expired_row : is_expired p.state ≡ true
  is_expired_row = ground arith

  not_succeeded : is_succeeded p.state ≡ false
  not_succeeded = expired_only p.state is_expired_row
    where
      expired_only : (q : BackupState) → is_expired q ≡ true → is_succeeded q ≡ false
      expired_only BackupState.expired e = refl
      expired_only BackupState.succeeded e = absurd (cc)
      expired_only _ e = refl

  delete-Stored :
      Stored store uploads uuid (record s { objects = (store.delete p.object_key s.objects).0 })
  delete-Stored =
      objects-Stored store uploads uuid s h (store.delete p.object_key s.objects).0
        (λ i b found succeeded there.
          store.delete_other p.object_key (own_key store uploads uuid b) s.objects
            (λ e.
              artifact_key-apart uuid plain injective p.tenant_id p.instance_id p.id b.tenant_id
                b.instance_id b.id
                (rows_apart (λ x. is_succeeded x.state) s.backups i id b p found here succeeded
                  not_succeeded)
                (sym names_own ∙ e))
            there)
        (λ i r found busy awaits there.
          store.delete_other p.object_key (run_key store uploads uuid r) s.objects
            (λ e.
              key_of_row store uploads uuid injective plain s h id p r here awaits
                (inr is_expired_row) (sym e ∙ names_own))
            there)

  pub deleted-Stored :
      (answer : Option String)
      → Stored store uploads uuid (deleted store uploads uuid tenant now answer p s)
  unfolding delete_artifact
  deleted-Stored answer =
      elim (Bool-cases (not (str_eq p.bucket "") && not (str_eq p.bucket store.bucket))) [
        | inl elsewhere ↦ rw elsewhere h
        | inr mine ↦ rw mine (by_answer (store.delete p.object_key s.objects) refl answer)
      ]
    where
      by_answer :
          (d : store.Objects × Option String)
          → store.delete p.object_key s.objects ≡ d
          → (answer : Option String)
          → let done =
              after_delete store tenant now
                (λ id. answer)
                p
                (started store s.objects s.backups)
                d in
            Stored store uploads uuid (record s { objects = done.objects; backups = done.rows })
      by_answer (o, some why) e answer =
          subst (λ o'. Stored store uploads uuid (record s { objects = o' })) (ap (λ d. d.0) e)
            delete-Stored
      by_answer (o, none) e (some message) =
          subst (λ o'. Stored store uploads uuid (record s { objects = o' })) (ap (λ d. d.0) e)
            delete-Stored
      by_answer (o, none) e none =
          mark-Stored (record s { objects = o })
            (subst (λ o'. Stored store uploads uuid (record s { objects = o' })) (ap (λ d. d.0) e)
              delete-Stored)
