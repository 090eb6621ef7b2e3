-- ===== src/Backup/System/Backed/Steps.antt =====
-- Every statement keeps the artifacts behind the backups that succeeded.
use text.Mathlib.Text.{◌==◌ as str_eq}
use fleetward.Base.{
  ℤ, ℕ, ◌≡◌, ◌≢◌, refl, sym, ap, ◌∙◌, inl, inr, Bool, true, false, List, [], ◌∷◌, ◌++◌, Option,
  none, some, String, arith, Bool-cases, exists, update, row, row-key, row-append-none,
}
use fleetward.Scheduler.Reaper.{is_orphaned_backup}
use fleetward.Backup.Retention.{Backup, Readers, is_owned, is_candidate, is_eligible}
use fleetward.Backup.Retention.Expiry.{named-is_eligible}
use fleetward.Backup.Retention.Sweep.{ObjectStore, outlived_ids, is_named, expire, expire_outlived}
use fleetward.Backup.Observe.{ObservedBackup, observed_row, revise, is_revised, upsert_observed}
use fleetward.Backup.Runs.Transfer.{Uploads}
use fleetward.Backup.Runs.Recording.{created_backup, has_identity}
use fleetward.Backup.System.{created, System, reaper_view, close_orphan, find_run, begin, polled}
use fleetward.Backup.System.Backed.{Stored, update-Stored}
use fleetward.Backup.System.Backed.Growth.{insert-Stored, enter-Stored}

pub not_both : {b : Bool} → b ≡ true → b ≡ false → ⊥
not_both yes_ no_ = absurd (ground arith)

pub same_found : {x y : Backup} → ◌≡◌ {A = Option Backup} (some x) (some y) → x ≡ y
same_found e = cc

-- Rows of which a test tells one from the other have two ids.
pub rows_apart :
    (q : Backup → Bool) (rows : List Backup) (id id' : ℕ) (b b' : Backup)
    → row (λ x. x.id) id rows ≡ some b
    → row (λ x. x.id) id' rows ≡ some b'
    → q b ≡ true
    → q b' ≡ false
    → b'.id ≢ b.id
rows_apart q rows id id' b b' found found' yes_ no_ e =
    let key : b.id ≡ id = row-key (λ x. x.id) id rows found in
    let key' : b'.id ≡ id' = row-key (λ x. x.id) id' rows found' in
    let same : b ≡ b' =
      same_found (sym found ∙ ap (λ i. row (λ x. x.id) i rows) (sym key ∙ sym e ∙ key') ∙ found') in
    not_both yes_ (ap q same ∙ no_)

module _ (store : ObjectStore) (uploads : Uploads store) (uuid : ℕ → String)
    (s : System store uploads uuid) (h : Stored store uploads uuid s) where
  pub reap-Stored :
      (ids : List ℕ) (now : ℕ)
      → Stored store uploads uuid (record s {
        backups = update (λ b. is_orphaned_backup ids (reaper_view b)) (close_orphan now) s.backups;
      })
  reap-Stored ids now =
      update-Stored store uploads uuid s h (λ b. is_orphaned_backup ids (reaper_view b))
        (close_orphan now) (λ b. refl) (λ b. (refl, refl))
        (λ id b found hit. ((λ managed succeeded. absurd (cc)), (h.rows id b found).1))
        (λ id r b found here open_ pending hit. (pending.0, refl, refl))

  pub expire-Stored :
      (tenant min_keep limit now : ℕ) (readers : Readers)
      → Stored store uploads uuid
          (record s { backups = (expire_outlived tenant min_keep limit now readers s.backups).0 })
  unfolding expire_outlived
  expire-Stored tenant min_keep limit now readers =
      let ids = outlived_ids tenant min_keep limit now readers s.backups in
      update-Stored store uploads uuid s h (is_named tenant ids) (expire now) (λ b. refl)
        (λ b. (refl, refl))
        (λ id b found hit. ((λ managed succeeded. absurd (cc)), (h.rows id b found).1))
        (λ id r b found here open_ pending hit. absurd (
          not_both
            (named-is_eligible tenant min_keep now readers s.backups limit h.keyed r.backup_id b
              here hit)
            (unfold is_eligible is_candidate is_owned in ground (arith, pending.1))))

  pub poll-Stored :
      (tenant instance_id id now : ℕ) (o : ObservedBackup) (answer : Option String)
      → row (λ b. b.id) id s.backups ≡ none
      → Stored store uploads uuid (
          polled store uploads uuid s
            (upsert_observed answer tenant instance_id id now o s.backups))
  unfolding upsert_observed
  poll-Stored tenant instance_id id now o (some why) free =
      elim (Bool-cases (str_eq o.external_id "")) [
        | inl unidentified ↦ rw unidentified h
        | inr identified ↦
            rw identified
              (elim (Bool-cases (exists (has_identity instance_id o.external_id) s.backups)) [
                | inl known ↦ rw known h
                | inr new ↦ rw new h
              ])
      ]
  poll-Stored tenant instance_id id now o none free = elim (Bool-cases (str_eq o.external_id "")) [
    | inl unidentified ↦ rw unidentified h
    | inr identified ↦
        rw identified
          (elim (Bool-cases (exists (has_identity instance_id o.external_id) s.backups)) [
            | inl known ↦ rw known (
                update-Stored store uploads uuid s h (is_revised instance_id o) (revise now o)
                  (λ b. refl) (λ b. (refl, refl))
                  (λ i b found hit. (
                    (λ managed succeeded. absurd (not_both managed (ground arith))),
                    (h.rows i b found).1,
                  ))
                  (λ i r b found here open_ pending hit.
                    absurd (not_both pending.0 (ground arith))))
            | inr new ↦ rw new (
                insert-Stored store uploads uuid s h (observed_row tenant instance_id id now o) free
                  ((λ managed succeeded. absurd (cc)), inl refl))
          ])
  ]

  pub begin-Stored :
      (tenant id instance_id job : ℕ) (method : String) (retention_days : ℤ) (now : ℕ)
      → row (λ b. b.id) id s.backups ≡ none
      → find_run store uploads uuid id s.runs ≡ none
      → Stored store uploads uuid
          (begin store uploads uuid tenant id instance_id job method retention_days now s)
  begin-Stored tenant id instance_id job method retention_days now free idle =
      let n = created_backup tenant id instance_id job method now in
      let h' =
        insert-Stored store uploads uuid s h n free
          ((λ managed succeeded. absurd (cc)), inl refl) in
      enter-Stored store uploads uuid (record s { backups = s.backups ++ n ∷ [] }) h'
        (record {
          backup_id = id;
          tenant_id = tenant;
          instance_id = instance_id;
          retention_days = retention_days;
          phase = created;
        })
        idle
        (
          n,
          row-append-none (λ b. b.id) id s.backups (n ∷ []) free ∙ unfold row in ground arith,
          (refl, refl, refl),
          refl,
          refl,
        )
