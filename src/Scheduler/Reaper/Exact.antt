-- ===== src/Scheduler/Reaper/Exact.antt =====
-- What a reap closes, described without its statements.
use fleetward.Base.{
  ℕ, suc, ◌<◌, ◌≡◌, refl, sym, ap, ◌⊎◌, inl, inr, Bool, true, ◌&&◌, List, [], ◌∷◌, Option, none,
  some, arith, if◌then◌else◌, Bool-cases, affected, row, ◌==◌, ==→eq, eq→==,
}
use mathlib.Core.Option
use fleetward.Scheduler.Rows.{
  JobState, Job, BackupState, BackupRow, VerificationState, VerificationRow, is_running,
}
use fleetward.Scheduler.Reaper.{
  Db, reap_message, has_expired, is_abandoned, is_any, is_open_backup, is_open_verification,
  abandoned_ids, reap,
}
use fleetward.Scheduler.Reaper.Orphans.{reap-rows}

-- A running job whose lease ran out before now.
abbrev pub IsLapsed : ℕ → Job → Type 0
IsLapsed now j =
    (j.state ≡ JobState.running) × ((t : ℕ) × (j.lease_expires_at ≡ some t) × (t < now))

-- A job id that is one of a lapsed job in the table.
abbrev pub NamesLapsed : ℕ → List Job → Option ℕ → Type 0
NamesLapsed now [] o = ⊥
NamesLapsed now (j ∷ js) o = (IsLapsed now j × (o ≡ some j.id)) ⊎ NamesLapsed now js o

abbrev pub IsLostBackup : ℕ → List Job → BackupRow → Type 0
IsLostBackup now jobs b =
    NamesLapsed now jobs b.job_id
    × ((b.state ≡ BackupState.pending) ⊎ (b.state ≡ BackupState.running))

abbrev pub IsLostVerification : ℕ → List Job → VerificationRow → Type 0
IsLostVerification now jobs v =
    NamesLapsed now jobs v.job_id
    × ((v.status ≡ VerificationState.pending) ⊎ (v.status ≡ VerificationState.running))

abbrev pub failed_job : ℕ → Job → Job
failed_job now j = record j {
  state = JobState.failed;
  error_message = reap_message;
  finished_at = some now;
  lease_owner = none;
  lease_expires_at = none;
  updated_at = now;
}

abbrev pub failed_backup : ℕ → BackupRow → BackupRow
failed_backup now b = record b {
  state = BackupState.failed;
  error_message = reap_message;
  completed_at = some now;
  updated_at = now;
}

abbrev pub inconclusive_verification : ℕ → VerificationRow → VerificationRow
inconclusive_verification now v = record v {
  status = VerificationState.inconclusive;
  error_message = reap_message;
  completed_at = some now;
  updated_at = now;
}

-- A row that has the property is changed so, one that has not is as it was, and none appears.
abbrev pub Closes {ℓ} : {A : Type ℓ} → (A → Type 0) → (A → A) → Option A → Option A → Type ℓ
Closes P f none after = after ≡ none
Closes P f (some x) after = (P x × (after ≡ some (f x))) ⊎ ((P x → ⊥) × (after ≡ some x))

-- The number of the lapsed jobs.
abbrev pub LapsedCount : ℕ → List Job → ℕ → Type 0
LapsedCount now [] n = n ≡ 0
LapsedCount now (j ∷ js) n =
    (IsLapsed now j × ((m : ℕ) × (n ≡ suc m) × LapsedCount now js m))
    ⊎ ((IsLapsed now j → ⊥) × LapsedCount now js n)

-- What a test decides.
abbrev IsDecidedBy : Type 0 → Bool → Type 0
IsDecidedBy P b = (b ≡ true → P) × (P → b ≡ true)

running→eq : (s : JobState) → is_running s ≡ true → s ≡ JobState.running
running→eq JobState.running e = refl
running→eq _ e = absurd (cc)

expired→lt :
    (o : Option ℕ) (now : ℕ) → has_expired o now ≡ true → (t : ℕ) × (o ≡ some t) × (t < now)
expired→lt none now e = absurd (cc)
expired→lt (some t) now e = (t, refl, ground arith)

abandoned-IsDecidedBy : (now : ℕ) (j : Job) → IsDecidedBy (IsLapsed now j) (is_abandoned now j)
abandoned-IsDecidedBy now j = (
  (λ e. (running→eq j.state (ground arith), expired→lt j.lease_expires_at now (ground arith))),
  (λ (running, (t, leased, past)). rw (running, leased) (ground arith)),
)

any-IsDecidedBy :
    (now : ℕ) (jobs : List Job) (o : Option ℕ)
    → IsDecidedBy (NamesLapsed now jobs o) (is_any (abandoned_ids now jobs) o)
any-IsDecidedBy now [] none = ((λ e. absurd (cc)), (λ h. absurd h))
any-IsDecidedBy now [] (some i) = ((λ e. absurd (cc)), (λ h. absurd h))
any-IsDecidedBy now (j ∷ js) none = (
  (λ e. absurd (cc)),
  (λ h. elim h [
    | inl first ↦ absurd (let e = first.1 in cc)
    | inr rest ↦ (any-IsDecidedBy now js none).1 rest
  ]),
)
any-IsDecidedBy now (j ∷ js) (some i) = elim (Bool-cases (is_abandoned now j)) [
  | inl hit ↦ rw hit (
    (λ e. elim (Bool-cases (j.id == i)) [
      | inl same ↦ inl ((abandoned-IsDecidedBy now j).0 hit, ap some (sym (==→eq j.id i same)))
      | inr other ↦ inr ((any-IsDecidedBy now js (some i)).0 (rw other at e))
    ]),
    (λ h. elim h [
      | inl first ↦
          let same : i ≡ j.id = let e = first.1 in cc in rw same (rw (eq→== j.id j.id refl) refl)
      | inr rest ↦ let e = (any-IsDecidedBy now js (some i)).1 rest in ground arith
    ]),
  )
  | inr miss ↦ rw miss (
    (λ e. inr ((any-IsDecidedBy now js (some i)).0 e)),
    (λ h. elim h [
      | inl first ↦ absurd (let e = (abandoned-IsDecidedBy now j).1 first.0 in cc)
      | inr rest ↦ (any-IsDecidedBy now js (some i)).1 rest
    ]),
  )
]

open_backup-IsDecidedBy :
    (s : BackupState)
    → IsDecidedBy ((s ≡ BackupState.pending) ⊎ (s ≡ BackupState.running)) (is_open_backup s)
open_backup-IsDecidedBy BackupState.pending = ((λ e. inl refl), (λ h. refl))
open_backup-IsDecidedBy BackupState.running = ((λ e. inr refl), (λ h. refl))
open_backup-IsDecidedBy _ =
    ((λ e. absurd (cc)), (λ h. elim h [ inl e ↦ absurd (cc) | inr e ↦ absurd (cc) ]))

open_verification-IsDecidedBy :
    (s : VerificationState)
    → IsDecidedBy
        ((s ≡ VerificationState.pending) ⊎ (s ≡ VerificationState.running))
        (is_open_verification s)
open_verification-IsDecidedBy VerificationState.pending = ((λ e. inl refl), (λ h. refl))
open_verification-IsDecidedBy VerificationState.running = ((λ e. inr refl), (λ h. refl))
open_verification-IsDecidedBy _ =
    ((λ e. absurd (cc)), (λ h. elim h [ inl e ↦ absurd (cc) | inr e ↦ absurd (cc) ]))

both :
    {P Q : Type 0} (b c : Bool) → IsDecidedBy P b → IsDecidedBy Q c → IsDecidedBy (P × Q) (b && c)
both b c p q = (
  (λ e. (p.0 (ground arith), q.0 (ground arith))),
  (λ h. let e = p.1 h.0 in let e' = q.1 h.1 in ground arith),
)

Closes-map {ℓ} :
    {A : Type ℓ} (P : A → Type 0) (f : A → A) (test : A → Bool)
    → ((x : A) → IsDecidedBy (P x) (test x))
    → (o : Option A) → Closes P f o (Option.map (λ x. if test x then f x else x) o)
Closes-map P f test decides none = refl
Closes-map P f test decides (some x) = elim (Bool-cases (test x)) [
  | inl hit ↦ inl ((decides x).0 hit, rw hit refl)
  | inr miss ↦ inr ((λ h. let e = (decides x).1 h in absurd (cc)), rw miss refl)
]

affected-LapsedCount :
    (now : ℕ) (jobs : List Job) → LapsedCount now jobs (affected (is_abandoned now) jobs)
unfolding affected
affected-LapsedCount now [] = refl
affected-LapsedCount now (j ∷ js) = elim (Bool-cases (is_abandoned now j)) [
  | inl hit ↦ inl (
    (abandoned-IsDecidedBy now j).0 hit,
    (affected (is_abandoned now) js, rw hit refl, affected-LapsedCount now js),
  )
  | inr miss ↦ inr (
    (λ h. let e = (abandoned-IsDecidedBy now j).1 h in absurd (cc)),
    rw miss (affected-LapsedCount now js),
  )
]

-- Exactly the running jobs whose lease ran out before now are failed and give up the lease, and the
-- count says how many; a backup still pending or running goes to failed and a verification still
-- pending or running to inconclusive exactly when it names one of those jobs; the row of every other
-- id is as it was.
pub reap_exact :
    (now id : ℕ) (db : Db)
    → let after = (reap now db).0 in
      LapsedCount now db.jobs (reap now db).1
      × Closes
          (IsLapsed now)
          (failed_job now)
          (row (λ j. j.id) id db.jobs)
          (row (λ j. j.id) id after.jobs)
      × Closes
          (IsLostBackup now db.jobs)
          (failed_backup now)
          (row (λ b. b.id) id db.backups)
          (row (λ b. b.id) id after.backups)
      × Closes
          (IsLostVerification now db.jobs)
          (inconclusive_verification now)
          (row (λ v. v.id) id db.verifications)
          (row (λ v. v.id) id after.verifications)
reap_exact now id db =
    let (count, jobs, backups, verifications) = reap-rows now id db in
    rw (count, jobs, backups, verifications)
      (
        affected-LapsedCount now db.jobs,
        Closes-map (IsLapsed now) (failed_job now) (is_abandoned now) (abandoned-IsDecidedBy now) _,
        Closes-map (IsLostBackup now db.jobs) (failed_backup now) _
            (λ b. both _ _ (any-IsDecidedBy now db.jobs b.job_id) (open_backup-IsDecidedBy b.state))
            _,
        Closes-map (IsLostVerification now db.jobs) (inconclusive_verification now) _
            (λ v.
              both _ _ (any-IsDecidedBy now db.jobs v.job_id)
                (open_verification-IsDecidedBy v.status))
            _,
      )
