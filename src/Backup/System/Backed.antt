-- ===== src/Backup/System/Backed.antt =====
-- Behind every backup that the table calls succeeded there is its artifact: what holds of the tables,
-- the store and the processes, and what keeps it.
pub mod Growth
pub mod Steps
pub mod Objects
pub mod Records
pub mod Deletions
pub mod Histories
use fleetward.Base.{
  ℕ, ◌≡◌, ◌≢◌, refl, sym, ap, subst, ◌∙◌, ◌⊎◌, inl, inr, Bool, true, false, List, [], ◌∷◌, Option,
  none, some, String, arith, ◌==◌, if◌then◌else◌, Bool-cases, update, row, row-key, row-updated,
  row-update-some, IsKeyed, IsKeyed-update,
}
use fleetward.Backup.Retention.{Backup, is_managed, is_succeeded, is_expired}
use fleetward.Backup.Retention.Sweep.{ObjectStore}
use fleetward.Backup.Runs.Transfer.{Uploads}
use fleetward.Backup.Runs.Recording.{artifact_key}
use fleetward.Backup.System.{Phase, created, over, uploaded, gave_up, Run, System, find_run, turn}

some_same : {x y : Run} → ◌≡◌ {A = Option Run} (some x) (some y) → x ≡ y
some_same e = cc

-- The row of a run that has not recorded its outcome: it is Fleetward's, and whatever closed it
-- meanwhile, it neither succeeded nor expired.
abbrev pub IsPending : Backup → Type 0
IsPending b =
    (is_managed b.origin ≡ true) × (is_succeeded b.state ≡ false) × (is_expired b.state ≡ false)

abbrev pub is_over : Phase → Bool
is_over over = true
is_over _ = false

abbrev pub is_uploaded : Phase → Bool
is_uploaded (uploaded result) = true
is_uploaded _ = false

abbrev pub Awaits : List Backup → Run → Type 0
Awaits rows r =
    (b : Backup) × (row (λ b. b.id) r.backup_id rows ≡ some b)
    × IsPending b
    × (b.tenant_id ≡ r.tenant_id)
    × (b.instance_id ≡ r.instance_id)

module _ (store : ObjectStore) (uploads : Uploads store) (uuid : ℕ → String) where
  abbrev pub own_key : Backup → String
  own_key b = artifact_key uuid b.tenant_id b.instance_id b.id

  abbrev pub run_key : Run → String
  run_key r = artifact_key uuid r.tenant_id r.instance_id r.backup_id

  -- The artifact of a managed backup that succeeded is in the store, under the backup's own key.
  abbrev pub IsBacked : store.Objects → Backup → Type 0
  IsBacked o b =
      is_managed b.origin ≡ true
      → is_succeeded b.state ≡ true
      → (b.object_key ≡ own_key b) × (store.present b.object_key o ≡ true)

  -- A row names its own artifact or none.
  abbrev pub IsOwn : Backup → Type 0
  IsOwn b = (b.object_key ≡ "") ⊎ (b.object_key ≡ own_key b)

  abbrev pub IsReady : store.Objects → List Backup → Run → Phase → Type 0
  IsReady o rows r over = Unit
  IsReady o rows r created = Awaits rows r
  IsReady o rows r (gave_up why) = Awaits rows r
  IsReady o rows r (uploaded result) =
      Awaits rows r
      × (store.present (run_key r) o ≡ true)
      × (result.artifact ≡ some (store.bucket, run_key r))

  pub record Stored (s : System store uploads uuid) : Type 0 where
    pub keyed : IsKeyed (λ b. b.id) s.backups
    pub runs_keyed : IsKeyed (λ r. r.backup_id) s.runs
    pub rows :
        (id : ℕ) (b : Backup)
        → row (λ b. b.id) id s.backups ≡ some b
        → IsBacked s.objects b × IsOwn b
    pub ready :
        (id : ℕ) (r : Run)
        → find_run store uploads uuid id s.runs ≡ some r
        → IsReady s.objects s.backups r r.phase

  module _ (s : System store uploads uuid) (h : Stored s) where
    -- Objects may go where no row and no run needs them.
    pub objects-Stored :
        (o : store.Objects)
        → ((id : ℕ) (b : Backup)
            → row (λ b. b.id) id s.backups ≡ some b
            → is_succeeded b.state ≡ true
            → store.present (own_key b) s.objects ≡ true
            → store.present (own_key b) o ≡ true)
        → ((id : ℕ) (r : Run)
            → find_run store uploads uuid id s.runs ≡ some r
            → is_uploaded r.phase ≡ true
            → Awaits s.backups r
            → store.present (run_key r) s.objects ≡ true
            → store.present (run_key r) o ≡ true)
        → Stored (record s { objects = o })
    objects-Stored o rows_there runs_there = record {
      keyed = h.keyed;
      runs_keyed = h.runs_keyed;
      rows = λ id b found. (
        (λ managed succeeded.
            let (named, there) = (h.rows id b found).0 managed succeeded in
            (
              named,
              ap (λ k. store.present k o) named
                  ∙ rows_there id b found succeeded
                      (ap (λ k. store.present k s.objects) (sym named) ∙ there),
            )),
        (h.rows id b found).1,
      );
      ready = λ id r found. still id r found r.phase refl (h.ready id r found);
    }
      where
        still :
            (id : ℕ) (r : Run)
            → find_run store uploads uuid id s.runs ≡ some r
            → (phase : Phase) → r.phase ≡ phase
            → IsReady s.objects s.backups r phase
            → IsReady o s.backups r phase
        still id r found over e ready = tt
        still id r found created e ready = ready
        still id r found (gave_up why) e ready = ready
        still id r found (uploaded result) e ready =
            (ready.0, runs_there id r found (ap is_uploaded e) ready.0 ready.1, ready.2)

    -- A run goes on where it is ready for it.
    pub turn-Stored :
        (id : ℕ) (r : Run) (phase : Phase)
        → find_run store uploads uuid id s.runs ≡ some r
        → IsReady s.objects s.backups r phase
        → Stored (record s { runs = turn store uploads uuid id phase s.runs })
    turn-Stored id r phase here ready = record {
      keyed = h.keyed;
      runs_keyed =
          IsKeyed-update (λ r. r.backup_id) (λ r. r.backup_id == id)
            (λ r. record r { phase = phase }) (λ r. refl) s.runs h.runs_keyed;
      rows = h.rows;
      ready = λ id' r' found. turned id' r' (
          row-updated (λ r. r.backup_id) (λ r. r.backup_id == id) (λ r. record r { phase = phase })
            (λ r. refl) id' s.runs found);
    }
      where
        turned :
            (id' : ℕ) (r' : Run)
            → ((x : Run) × (find_run store uploads uuid id' s.runs ≡ some x)
                × ((if x.backup_id == id then record x { phase = phase } else x) ≡ r'))
            → IsReady s.objects s.backups r' r'.phase
        turned id' r' (x, old, e) = elim (Bool-cases (x.backup_id == id)) [
          | inr other ↦
              let is : (if x.backup_id == id then record x { phase = phase } else x) ≡ x =
                rw other refl in
              subst (λ y. IsReady s.objects s.backups y y.phase) (sym is ∙ e) (h.ready id' x old)
          | inl hit ↦
              let same : x ≡ r = the_run x old hit in
              let is : (if x.backup_id == id then record x { phase = phase } else x)
                  ≡ record x { phase = phase } =
                rw hit refl in
              subst (λ y. IsReady s.objects s.backups y y.phase) (sym is ∙ e)
                (subst (λ y. IsReady s.objects s.backups (record y { phase = phase }) phase)
                  (sym same) (as_turned phase ready))
        ]
          where
            the_run :
                (x : Run)
                → find_run store uploads uuid id' s.runs ≡ some x
                → (x.backup_id == id) ≡ true
                → x ≡ r
            the_run x old hit =
                let key : x.backup_id ≡ id' = row-key (λ r. r.backup_id) id' s.runs old in
                let e' : id' ≡ id = ground arith in
                some_same (sym old ∙ ap (λ i. find_run store uploads uuid i s.runs) e' ∙ here)

            as_turned :
                (phase' : Phase)
                → IsReady s.objects s.backups r phase'
                → IsReady s.objects s.backups (record r { phase = phase }) phase'
            as_turned over y = y
            as_turned created y = y
            as_turned (gave_up why) y = y
            as_turned (uploaded result) y = y

    -- An update of rows that keeps their owners, what is behind them, and what runs wait for.
    pub update-Stored :
        (p : Backup → Bool) (f : Backup → Backup)
        → ((b : Backup) → (f b).id ≡ b.id)
        → ((b : Backup) → ((f b).tenant_id ≡ b.tenant_id) × ((f b).instance_id ≡ b.instance_id))
        → ((id : ℕ) (b : Backup)
            → row (λ b. b.id) id s.backups ≡ some b
            → p b ≡ true
            → IsBacked s.objects (f b) × IsOwn (f b))
        → ((id : ℕ) (r : Run) (b : Backup)
            → find_run store uploads uuid id s.runs ≡ some r
            → row (λ b. b.id) r.backup_id s.backups ≡ some b
            → is_over r.phase ≡ false
            → IsPending b
            → p b ≡ true
            → IsPending (f b))
        → Stored (record s { backups = update p f s.backups })
    update-Stored p f same owners sound waits = record {
      keyed = IsKeyed-update (λ b. b.id) p f same s.backups h.keyed;
      runs_keyed = h.runs_keyed;
      rows = λ id b found. revised id b (row-updated (λ b. b.id) p f same id s.backups found);
      ready = λ id r found. still id r found r.phase refl (h.ready id r found);
    }
      where
        revised :
            (id : ℕ) (b : Backup)
            → ((x : Backup) × (row (λ b. b.id) id s.backups ≡ some x)
                × ((if p x then f x else x) ≡ b))
            → IsBacked s.objects b × IsOwn b
        revised id b (x, old, e) = elim (Bool-cases (p x)) [
          | inl hit ↦
              let is : (if p x then f x else x) ≡ f x = rw hit refl in
              subst (λ y. IsBacked s.objects y × IsOwn y) (sym is ∙ e) (sound id x old hit)
          | inr miss ↦
              let is : (if p x then f x else x) ≡ x = rw miss refl in
              subst (λ y. IsBacked s.objects y × IsOwn y) (sym is ∙ e) (h.rows id x old)
        ]

        waiting :
            (id : ℕ) (r : Run)
            → find_run store uploads uuid id s.runs ≡ some r
            → is_over r.phase ≡ false
            → Awaits s.backups r
            → Awaits (update p f s.backups) r
        waiting id r found open_ (b, here, pending, tenant, instance_id) =
            let there = row-update-some (λ b. b.id) p f same r.backup_id s.backups here in
            elim (Bool-cases (p b)) [
              | inr miss ↦ (b, there ∙ rw miss refl, pending, tenant, instance_id)
              | inl hit ↦ (
                f b,
                there ∙ rw hit refl,
                waits id r b found here open_ pending hit,
                (owners b).0 ∙ tenant,
                (owners b).1 ∙ instance_id,
              )
            ]

        still :
            (id : ℕ) (r : Run)
            → find_run store uploads uuid id s.runs ≡ some r
            → (phase : Phase) → r.phase ≡ phase
            → IsReady s.objects s.backups r phase
            → IsReady s.objects (update p f s.backups) r phase
        still id r found over e ready = tt
        still id r found created e ready = waiting id r found (ap is_over e) ready
        still id r found (gave_up why) e ready = waiting id r found (ap is_over e) ready
        still id r found (uploaded result) e ready =
            (waiting id r found (ap is_over e) ready.0, ready.1, ready.2)
