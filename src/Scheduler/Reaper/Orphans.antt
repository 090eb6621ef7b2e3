-- ===== src/Scheduler/Reaper/Orphans.antt =====
-- What a reap leaves behind: the jobs it closes, and the backups and verifications that went with
-- them.
use mathlib.Core.Option
use fleetward.Base.{
  ℕ, ◌≡◌, refl, ◌∙◌, inl, inr, Bool, true, false, ◌&&◌, List, [], ◌∷◌, Option, none, some, String,
  arith, ◌==◌, if◌then◌else◌, ==→eq, Bool-cases, length, All, update, affected, row, row-update,
  IsKeyed, IsKeyed-update,
}
use fleetward.Scheduler.Rows.{JobState, Job, BackupRow, VerificationRow}
use fleetward.Scheduler.Lease.{close_job, release, renew, finish, Duration, lease_lost}
use fleetward.Scheduler.Lease.Fencing.{not_held_is_fenced}
use fleetward.Scheduler.Reaper.{
  Db, reap_message, is_abandoned, is_any, is_open_backup, is_open_verification, is_orphaned_backup,
  is_orphaned_verification, fail_backup, conclude_verification, abandoned_ids, reap,
}

-- An update that settles what it selects leaves none of it unsettled.
update-settles {ℓ} :
    {A : Type ℓ} (named open_row : A → Bool) (f : A → A)
    → ((x : A) → open_row (f x) ≡ false)
    → (xs : List A)
    → All (λ x. (named x && open_row x) ≡ false) (update (λ x. named x && open_row x) f xs)
unfolding update
update-settles named open_row f settled [] = tt
update-settles named open_row f settled (x ∷ xs) =
    (ground (arith, settled x), update-settles named open_row f settled xs)

update_nothing {ℓ} :
    {A : Type ℓ} (p : A → Bool) (f : A → A) (xs : List A)
    → ((x : A) → p x ≡ false)
    → update p f xs ≡ xs
unfolding update
update_nothing p f [] no_row = refl
update_nothing p f (x ∷ xs) no_row = ground (arith, no_row x, update_nothing p f xs no_row)

length-abandoned_ids :
    (now : ℕ) (jobs : List Job) → length (abandoned_ids now jobs) ≡ affected (is_abandoned now) jobs
unfolding affected
length-abandoned_ids now [] = refl
length-abandoned_ids now (j ∷ js) = ground (arith, length-abandoned_ids now js)

no_ids : (ids : List ℕ) → length ids ≡ 0 → ids ≡ []
no_ids [] h = refl
no_ids (i ∷ ids) h = absurd (omega arith)

is_any-nil : (o : Option ℕ) → is_any [] o ≡ false
is_any-nil none = refl
is_any-nil (some i) = refl

-- With nothing to reap the two later statements would select no row.
no_backups :
    (ids : List ℕ) (now : ℕ) (bs : List BackupRow)
    → ids ≡ []
    → update (is_orphaned_backup ids) (fail_backup now) bs ≡ bs
no_backups ids now bs e =
    rw e
      (update_nothing (is_orphaned_backup []) (fail_backup now) bs (λ b. rw (is_any-nil b.job_id)))

no_verifications :
    (ids : List ℕ) (now : ℕ) (vs : List VerificationRow)
    → ids ≡ []
    → update (is_orphaned_verification ids) (conclude_verification now) vs ≡ vs
no_verifications ids now vs e = rw e (
    update_nothing (is_orphaned_verification []) (conclude_verification now) vs
      (λ v. rw (is_any-nil v.job_id)))

-- The early return is no case apart.
reap_lem :
    (now : ℕ) (db : Db)
    → reap now db ≡ (
      record {
        jobs = update (is_abandoned now) (close_job JobState.failed reap_message now) db.jobs;
        backups =
            update (is_orphaned_backup (abandoned_ids now db.jobs)) (fail_backup now) db.backups;
        verifications =
            update
              (is_orphaned_verification (abandoned_ids now db.jobs))
              (conclude_verification now)
              db.verifications;
      },
      affected (is_abandoned now) db.jobs,
    )
unfolding reap
reap_lem now db = elim (Bool-cases (length (abandoned_ids now db.jobs) == 0)) [
  | inl none_left ↦
      let empty = no_ids (abandoned_ids now db.jobs) (==→eq _ 0 none_left) in
      ground (
        arith,
        length-abandoned_ids now db.jobs,
        no_backups (abandoned_ids now db.jobs) now db.backups empty,
        no_verifications (abandoned_ids now db.jobs) now db.verifications empty,
      )
  | inr some_left ↦ rw some_left (ground (arith, length-abandoned_ids now db.jobs))
]

pub reap-rows :
    (now id : ℕ) (db : Db)
    → let after = (reap now db).0 in
      let ids = abandoned_ids now db.jobs in
      ((reap now db).1 ≡ affected (is_abandoned now) db.jobs)
      × (row (λ j. j.id) id after.jobs
          ≡ Option.map
              (λ j. if is_abandoned now j then close_job JobState.failed reap_message now j else j)
              (row (λ j. j.id) id db.jobs))
      × (row (λ b. b.id) id after.backups
          ≡ Option.map
              (λ b. if is_orphaned_backup ids b then fail_backup now b else b)
              (row (λ b. b.id) id db.backups))
      × (row (λ v. v.id) id after.verifications
          ≡ Option.map
              (λ v. if is_orphaned_verification ids v then conclude_verification now v else v)
              (row (λ v. v.id) id db.verifications))
reap-rows now id db = rw (reap_lem now db) (
  refl,
  (row-update (λ j. j.id) (is_abandoned now) _ (λ j. refl) id db.jobs),
  (row-update (λ b. b.id) (is_orphaned_backup (abandoned_ids now db.jobs)) _ (λ b. refl) id
      db.backups),
  (row-update (λ v. v.id) (is_orphaned_verification (abandoned_ids now db.jobs)) _ (λ v. refl) id
      db.verifications),
)

-- After a reap no row of a job that it closed still claims to be under way: no such backup is
-- pending or running, and no such verification is either.
pub reap_leaves_no_orphan :
    (now : ℕ) (db : Db)
    → let after = (reap now db).0 in
      let ids = abandoned_ids now db.jobs in
      All (λ b. (is_any ids b.job_id && is_open_backup b.state) ≡ false) after.backups
      × All
          (λ v. (is_any ids v.job_id && is_open_verification v.status) ≡ false)
          after.verifications
reap_leaves_no_orphan now db = rw (reap_lem now db) (
  update-settles (λ b. is_any (abandoned_ids now db.jobs) b.job_id) (λ b. is_open_backup b.state)
      (fail_backup now) (λ b. refl) db.backups,
  update-settles (λ v. is_any (abandoned_ids now db.jobs) v.job_id)
      (λ v. is_open_verification v.status) (conclude_verification now) (λ v. refl) db.verifications,
)

-- Where ids are unique: once a job's lease has run out and a reap has passed, whoever ran it is
-- locked out. For every owner the heartbeat reports the lease lost, and neither `release` nor
-- `finish` changes a row.
pub reaped_is_fenced :
    (now later id owner : ℕ) (db : Db) (n : Job) (ttl : Duration) (state : JobState)
    (message : String)
    → IsKeyed (λ j. j.id) db.jobs
    → row (λ j. j.id) id db.jobs ≡ some n
    → is_abandoned now n ≡ true
    → let after = (reap now db).0.jobs in
      (renew id owner ttl later after ≡ (after, lease_lost))
      × (release id owner later after ≡ after)
      × (finish id owner state message later after ≡ after)
reaped_is_fenced now later id owner db n ttl state message keyed here gone =
    not_held_is_fenced id owner later (reap now db).0.jobs
      (close_job JobState.failed reap_message now n)
      (rw (reap_lem now db)
        (IsKeyed-update (λ j. j.id) (is_abandoned now) _ (λ j. refl) db.jobs keyed))
      ((reap-rows now id db).1 ∙ rw (here, gone)) ttl state message refl
