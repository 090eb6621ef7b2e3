-- ===== src/Backup/System/Race.antt =====
-- A poll that reads the engine's own record of a run before the run has recorded itself.
use text.Mathlib.Text.{◌==◌ as str_eq}
use text.Mathlib.TextEquality.{eq_iff}
use fleetward.Base.{
  ℕ, ◌≡◌, refl, sym, ap, ◌∙◌, inl, inr, Bool, true, false, not, ◌&&◌, List, [], ◌∷◌, ◌++◌, Option,
  none, some, String, arith, ◌==◌, Bool-cases, exists, row, row-append, row-update-some,
}
use fleetward.Backup.Retention.{Backup}
use fleetward.Backup.Retention.Sweep.{ObjectStore}
use fleetward.Backup.Observe.{ObservedBackup, observed_row, upsert_observed}
use fleetward.Backup.Runs.Transfer.{BackupResult, Uploads}
use fleetward.Backup.Runs.Recording.{has_identity, identity_of, is_taken, record_backup_success}
use fleetward.Backup.System.{over, uploaded, Run, records, polls, System, find_run, turn, step, run}

-- A row at the end of a table is found.
exists-append :
    (p : Backup → Bool) (rows : List Backup) (n : Backup)
    → p n ≡ true
    → exists p (rows ++ n ∷ []) ≡ true
exists-append p [] n h = ground arith
exists-append p (b ∷ bs) n h = ground (arith, exists-append p bs n h)

module _ (store : ObjectStore) (uploads : Uploads store) (uuid : ℕ → String) where
  module _ (r : Run) (result : BackupResult)
      (identified : str_eq result.external_id "" ≡ false) where
    identity_taken :
        (tenant id now : ℕ) (o : ObservedBackup) (rows : List Backup)
        → o.external_id ≡ result.external_id
        → (id == r.backup_id) ≡ false
        → is_taken r.backup_id r.instance_id
            (identity_of result)
            (rows ++ observed_row tenant r.instance_id id now o ∷ [])
          ≡ true
    identity_taken tenant id now o rows e apart = rw identified (
        exists-append
          (λ b. not (b.id == r.backup_id) && has_identity r.instance_id result.external_id b) rows
          (observed_row tenant r.instance_id id now o)
          (let same : str_eq o.external_id result.external_id ≡ true = (eq_iff _ _).1 e in
            ground (arith, same)))

    after_poll :
        (s : System store uploads uuid) (tenant id now : ℕ) (o : ObservedBackup)
        → o.external_id ≡ result.external_id
        → exists (has_identity r.instance_id result.external_id) s.backups ≡ false
        → row (λ b. b.id) id s.backups ≡ none
        → find_run store uploads uuid id s.runs ≡ none
        → step store uploads uuid s (polls tenant r.instance_id id now o none)
          ≡ record s { backups = s.backups ++ observed_row tenant r.instance_id id now o ∷ [] }
    unfolding step upsert_observed
    after_poll s tenant id now o e new free idle =
        let named : str_eq o.external_id "" ≡ false = ap (λ x. str_eq x "") e ∙ identified in
        let new' : exists (has_identity r.instance_id o.external_id) s.backups ≡ false =
          ap (λ x. exists (has_identity r.instance_id x) s.backups) e ∙ new in
        rw (free, idle, named, new')

    after_record :
        (s : System store uploads uuid) (now : ℕ)
        → find_run store uploads uuid r.backup_id s.runs ≡ some r
        → r.phase ≡ uploaded result
        → is_taken r.backup_id r.instance_id (identity_of result) s.backups ≡ true
        → step store uploads uuid s (records r.backup_id now none)
          ≡ record s { runs = turn store uploads uuid r.backup_id over s.runs }
    unfolding step record_backup_success
    after_record s now here e taken = rw (here, e, taken)

    other_id :
        (s : System store uploads uuid) (id : ℕ)
        → find_run store uploads uuid r.backup_id s.runs ≡ some r
        → find_run store uploads uuid id s.runs ≡ none
        → (id == r.backup_id) ≡ false
    other_id s id here idle = elim (Bool-cases (id == r.backup_id)) [
      | inr apart ↦ apart
      | inl same ↦
          let e : id ≡ r.backup_id = ground arith in
          absurd
            (some_none (sym here ∙ ap (λ i. find_run store uploads uuid i s.runs) (sym e) ∙ idle))
    ]
      where
        some_none : ◌≡◌ {A = Option Run} (some r) none → ⊥
        some_none h = cc

    -- A backup is lost where an observation poll comes between its transfer and its record: if the
    -- run holds a result that has an identity of the engine's, and a poll of its instance meets the
    -- engine's record of that backup, which no row has yet, then the run's statement is refused by
    -- the index on identities. The run is over and its row is as it was before, running.
    pub poll_loses_backup :
        (s : System store uploads uuid) (b : Backup) (tenant id polled_at now : ℕ)
        (o : ObservedBackup)
        → find_run store uploads uuid r.backup_id s.runs ≡ some r
        → r.phase ≡ uploaded result
        → row (λ b. b.id) r.backup_id s.backups ≡ some b
        → row (λ b. b.id) id s.backups ≡ none
        → find_run store uploads uuid id s.runs ≡ none
        → o.external_id ≡ result.external_id
        → exists (has_identity r.instance_id result.external_id) s.backups ≡ false
        → let after =
            run store uploads uuid s (
              polls tenant r.instance_id id polled_at o none ∷ records r.backup_id now none ∷ []) in
          (row (λ b. b.id) r.backup_id after.backups ≡ some b)
          × (find_run store uploads uuid r.backup_id after.runs ≡ some (record r { phase = over }))
    unfolding run
    poll_loses_backup s b tenant id polled_at now o here e found free idle same new =
        let read = after_poll s tenant id polled_at o same new free idle in
        let apart : (id == r.backup_id) ≡ false = other_id s id here idle in
        let own : (r.backup_id == r.backup_id) ≡ true = ground arith in
        let z : System store uploads uuid = record s {
          backups = s.backups ++ observed_row tenant r.instance_id id polled_at o ∷ [];
        } in
        let ended =
          after_record z now here e (identity_taken tenant id polled_at o s.backups same apart) in
        rw (read, ended)
          (
            row-append (λ b. b.id) r.backup_id s.backups
                (observed_row tenant r.instance_id id polled_at o ∷ []) found,
            row-update-some (λ x. x.backup_id) (λ x. x.backup_id == r.backup_id)
                  (λ x. record x { phase = over }) (λ x. refl) r.backup_id s.runs here
                ∙ rw own refl,
          )
