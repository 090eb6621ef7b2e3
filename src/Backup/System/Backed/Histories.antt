-- ===== src/Backup/System/Backed/Histories.antt =====
-- Any history of statements.
use fleetward.Base.{
  ℕ, ◌≡◌, refl, sym, subst, inl, inr, true, false, ◌||◌, List, [], ◌∷◌, Option, none, some, String,
  arith, Bool-cases, is_some, row, row-key,
}
use fleetward.Backup.Retention.{Backup, is_managed, is_succeeded}
use fleetward.Backup.Retention.Sweep.{ObjectStore}
use fleetward.Backup.Runs.Transfer.{Uploads}
use fleetward.Backup.Runs.Recording.{artifact_key}
use fleetward.Backup.System.{
  Event, begins, transfers, records, reaps, polls, expires, deletes, System, find_run, is_listed,
  step, run, transfer_run, record_run, Run, where_found, delete_listed, where_found, delete_listed,
}
use fleetward.Backup.System.Keys.{has_slash}
use fleetward.Backup.System.Backed.{Stored, IsReady}
use fleetward.Backup.System.Backed.Steps.{reap-Stored, expire-Stored, poll-Stored, begin-Stored}
use fleetward.Backup.System.Backed.Objects.{transfer_run-Stored}
use fleetward.Backup.System.Backed.Records.{record_run-Stored}
use fleetward.Backup.System.Backed.Deletions.{deleted-Stored}

none_of : {A : Type 0} (o : Option A) → is_some o ≡ false → o ≡ none
none_of none e = refl
none_of (some a) e = absurd (cc)

module _ (store : ObjectStore) (uploads : Uploads store) (uuid : ℕ → String)
    (injective : (m n : ℕ) → uuid m ≡ uuid n → m ≡ n)
    (plain : (n : ℕ) → has_slash (uuid n) ≡ false) where
  by_run :
      (s : System store uploads uuid) (h : Stored store uploads uuid s) (id : ℕ)
      (go : Run → System store uploads uuid)
      → ((r : Run)
          → find_run store uploads uuid r.backup_id s.runs ≡ some r
          → IsReady store uploads uuid s.objects s.backups r r.phase
          → Stored store uploads uuid (go r))
      → (o : Option Run) → find_run store uploads uuid id s.runs ≡ o
      → Stored store uploads uuid (where_found store uploads uuid s go o)
  by_run s h id go steps none e = h
  by_run s h id go steps (some r) e =
      let key : r.backup_id ≡ id = row-key (λ x. x.backup_id) id s.runs e in
      steps r (subst (λ i. find_run store uploads uuid i s.runs ≡ some r) (sym key) e)
        (h.ready id r e)

  by_row :
      (s : System store uploads uuid) (h : Stored store uploads uuid s) (tenant id now : ℕ)
      (answer : Option String) (o : Option Backup)
      → row (λ b. b.id) id s.backups ≡ o
      → Stored store uploads uuid (
          where_found store uploads uuid s (delete_listed store uploads uuid tenant now answer s) o)
  by_row s h tenant id now answer none e = h
  by_row s h tenant id now answer (some p) e =
      elim (Bool-cases (is_listed store uploads uuid tenant p)) [
        | inr spared ↦ rw spared h
        | inl listed ↦
            rw listed (
              deleted-Stored store uploads uuid injective plain s h tenant now id p e listed answer)
      ]

  pub step-Stored :
      (s : System store uploads uuid) (e : Event)
      → Stored store uploads uuid s
      → Stored store uploads uuid (step store uploads uuid s e)
  unfolding step
  step-Stored s (begins tenant id instance_id job method retention_days now) h =
      elim (Bool-cases (
        is_some (row (λ b. b.id) id s.backups)
        || is_some (find_run store uploads uuid id s.runs))) [
          | inl taken ↦ rw taken h
          | inr free ↦ rw free (
              begin-Stored store uploads uuid s h tenant id instance_id job method retention_days
                now (none_of _ (ground arith)) (none_of _ (ground arith)))
        ]
  step-Stored s (transfers id answer) h =
      by_run s h id (λ r. transfer_run store uploads uuid answer r r.phase s)
        (λ r here ready.
          transfer_run-Stored store uploads uuid injective plain s h answer r r.phase refl here
            ready)
        (find_run store uploads uuid id s.runs) refl
  step-Stored s (records id now answer) h =
      by_run s h id (λ r. record_run store uploads uuid now answer r r.phase s)
        (λ r here ready. record_run-Stored store uploads uuid s h r here now answer r.phase ready)
        (find_run store uploads uuid id s.runs) refl
  step-Stored s (reaps ids now) h = reap-Stored store uploads uuid s h ids now
  step-Stored s (polls tenant instance_id id now o answer) h =
      elim (Bool-cases (
        is_some (row (λ b. b.id) id s.backups)
        || is_some (find_run store uploads uuid id s.runs))) [
          | inl taken ↦ rw taken h
          | inr free ↦ rw free (
              poll-Stored store uploads uuid s h tenant instance_id id now o answer
                (none_of _ (ground arith)))
        ]
  step-Stored s (expires tenant min_keep limit now readers) h =
      expire-Stored store uploads uuid s h tenant min_keep limit now readers
  step-Stored s (deletes tenant id now answer) h =
      by_row s h tenant id now answer (row (λ b. b.id) id s.backups) refl

  run-Stored :
      (s : System store uploads uuid) (es : List Event)
      → Stored store uploads uuid s
      → Stored store uploads uuid (run store uploads uuid s es)
  unfolding run
  run-Stored s [] h = h
  run-Stored s (e ∷ es) h = run-Stored (step store uploads uuid s e) es (step-Stored s e h)

  -- Through any interleaving of runs, reaps, polls and sweeps by any number of control planes,
  -- whatever the plugins, the store and the database answer, each backup that Fleetward took and
  -- that its row calls succeeded has its artifact in the store, under the key that the row names,
  -- which is the backup's own. This holds where it held at first, and where the texts of two ids
  -- are two and no such text has a slash.
  pub succeeded_backups_are_stored :
      (s : System store uploads uuid) (es : List Event) (id : ℕ) (b : Backup)
      → Stored store uploads uuid s
      → row (λ b. b.id) id (run store uploads uuid s es).backups ≡ some b
      → is_managed b.origin ≡ true
      → is_succeeded b.state ≡ true
      → (b.object_key ≡ artifact_key uuid b.tenant_id b.instance_id b.id)
        × (store.present b.object_key (run store uploads uuid s es).objects ≡ true)
  succeeded_backups_are_stored s es id b h found managed succeeded =
      ((run-Stored s es h).rows id b found).0 managed succeeded
