-- ===== src/Backup/Retention.antt =====
-- internal/controlplane/backup/retention.go: which backups have outlived their retention, and the
-- rows that say so.
pub mod Sweep
pub mod Expiry
pub mod Stamped
pub mod Floor
pub mod Untouched
pub mod Kept
pub mod Artifacts
pub mod Reconciled
pub mod Preview
pub mod Agreement
pub mod Previewed
mod Listing
mod Examples
use fleetward.Base.{
  ℕ, zero, suc, ◌+◌, ◌-◌, ◌*◌, ◌/◌, ◌%◌, ◌≤◌, ◌<◌, ◌≡◌, refl, sym, ap, subst, ◌∙◌, ◌≢◌, ◌↔◌, ◌⊎◌,
  inl, inr, Bool, true, false, not, ◌&&◌, ◌||◌, List, [], ◌∷◌, ◌++◌, map, Option, none, some,
  String, arith, ltb, leb, ◌==◌, if◌then◌else◌, eq→==, ==→eq, ne→==, ltb→lt, Bool-cases,
  Option-cases, ℤ, pos, negsuc, pos_part, neg_part, is_positive, holds, is_some, length, All,
  All-map, All-update, All-append, length-append, All-true, exists, where_rows, update, affected,
  update-All, update-none, row, row-update, row-none, row-keyed, row-key, row-update-some,
  row-update-none, row-update_ne, affected-row, affected-row-none, IsKeyed, IsKeyed-update, take,
  insert_on, sort_on, All-sort_on, All-take, All-where_rows,
}
use fleetward.Scheduler.Rows.{Kind, JobState, BackupState, VerificationState}
use fleetward.Scheduler.Jobs.{is_active}

-- Who took a backup.
pub data Origin : Type 0 where
  managed observed : Origin

-- A row of `backups`, by the columns that runs, observation and retention read and write.
pub record Backup : Type 0 where
  pub id : ℕ
  pub tenant_id : ℕ
  pub instance_id : ℕ
  pub job_id : Option ℕ
  pub method_id : String
  pub external_id : Option String
  pub checksum_value : String
  pub error_message : String
  pub started_at : Option ℕ
  pub origin : Origin
  pub state : BackupState
  pub completed_at : Option ℕ
  pub expires_at : Option ℕ
  pub size_bytes : ℕ
  pub bucket : String
  pub object_key : String
  pub artifact_deleted_at : Option ℕ
  pub updated_at : ℕ

-- A row of `verifications`, as retention reads it.
pub record Verification : Type 0 where
  pub tenant_id : ℕ
  pub backup_id : ℕ
  pub status : VerificationState
  pub created_at : ℕ

-- A row of `restores`. Its states are those of a job.
pub record Restore : Type 0 where
  pub tenant_id : ℕ
  pub backup_id : ℕ
  pub state : JobState

-- A row of `jobs`, with `payload->>'backup_id'`: `none` is NULL or the empty string.
pub record PayloadJob : Type 0 where
  pub tenant_id : ℕ
  pub kind : Kind
  pub state : JobState
  pub backup_id : Option ℕ

-- What the query reads besides `backups`.
pub record Readers : Type 0 where
  pub verifications : List Verification
  pub restores : List Restore
  pub jobs : List PayloadJob

-- `stampedExpiry`: NULL is never. A day is 86,400,000,000 microseconds, in UTC as in AddDate.
unfoldable pub stamped_expiry : ℤ → ℕ → Option ℕ
stamped_expiry (pos zero) completed_at = none
stamped_expiry (pos (suc n)) completed_at = some (completed_at + suc n * 86400000000)
stamped_expiry (negsuc n) completed_at = none

abbrev pub is_managed : Origin → Bool
is_managed Origin.managed = true
is_managed Origin.observed = false

abbrev pub is_succeeded : BackupState → Bool
is_succeeded BackupState.succeeded = true
is_succeeded _ = false

abbrev pub is_expired : BackupState → Bool
is_expired BackupState.expired = true
is_expired _ = false

-- The rows of `owned`.
unfoldable pub is_owned : ℕ → Backup → Bool
is_owned tenant b = b.tenant_id == tenant && is_managed b.origin && is_succeeded b.state

-- DESC NULLS LAST.
abbrev pub recency : Option ℕ → ℕ
recency none = 0
recency (some t) = suc t

-- ORDER BY completed_at DESC NULLS LAST, id.
unfoldable pub precedes : Backup → Backup → Bool
precedes a b =
    ltb (recency b.completed_at) (recency a.completed_at)
    || recency a.completed_at == recency b.completed_at && ltb a.id b.id

-- The rows of a partition: those that `p` admits, of one instance.
abbrev pub is_of : (Backup → Bool) → ℕ → Backup → Bool
is_of p instance_id b = p b && b.instance_id == instance_id

-- `row_number() - 1` in the partition of the row's instance.
unfoldable pub rank : (Backup → Bool) → List Backup → Backup → ℕ
rank p rows b = affected (λ a. is_of p b.instance_id a && precedes a b) rows

abbrev pub later_of : ℕ → Verification → Option Verification → Option Verification
later_of id v none = some v
later_of id v (some w) = if ltb v.created_at w.created_at then some w else some v

-- ORDER BY created_at DESC LIMIT 1.
unfoldable pub latest_verification : ℕ → List Verification → Option Verification
latest_verification id [] = none
latest_verification id (v ∷ vs) =
    let rest = latest_verification id vs in if v.backup_id == id then later_of id v rest else rest

abbrev pub is_verified : VerificationState → Bool
is_verified VerificationState.verified = true
is_verified _ = false

abbrev pub verified_last : Option Verification → Bool
verified_last none = false
verified_last (some v) = is_verified v.status

unfoldable pub is_proven : Readers → Backup → Bool
is_proven readers b = verified_last (latest_verification b.id readers.verifications)

abbrev pub is_underway : VerificationState → Bool
is_underway VerificationState.pending = true
is_underway VerificationState.running = true
is_underway _ = false

abbrev pub is_reading : Kind → Bool
is_reading Kind.verify = true
is_reading Kind.restore = true
is_reading _ = false

abbrev pub verifies : ℕ → ℕ → Verification → Bool
verifies tenant id v = v.tenant_id == tenant && v.backup_id == id && is_underway v.status

abbrev pub restores_from : ℕ → ℕ → Restore → Bool
restores_from tenant id r = r.tenant_id == tenant && r.backup_id == id && is_active r.state

abbrev pub will_read : ℕ → ℕ → PayloadJob → Bool
will_read tenant id j =
    j.tenant_id == tenant && is_reading j.kind && is_active j.state && holds j.backup_id id

unfoldable pub is_busy : ℕ → Readers → Backup → Bool
is_busy tenant readers b =
    exists (verifies tenant b.id) readers.verifications
    || exists (restores_from tenant b.id) readers.restores
    || exists (will_read tenant b.id) readers.jobs

abbrev pub has_outlived : Option ℕ → ℕ → Bool
has_outlived none now = false
has_outlived (some t) now = leb t now

abbrev pub is_owned_proven : ℕ → Readers → Backup → Bool
is_owned_proven tenant readers b = is_owned tenant b && is_proven readers b

module _ (tenant min_keep : ℕ) (readers : Readers) (rows : List Backup) where
  unfoldable pub floor_recent : Backup → Bool
  floor_recent b = is_owned tenant b && ltb (rank (is_owned tenant) rows b) min_keep

  -- DISTINCT ON keeps the first row of each instance.
  unfoldable pub floor_verified : Backup → Bool
  floor_verified b =
      is_owned_proven tenant readers b && rank (is_owned_proven tenant readers) rows b == 0

  unfoldable pub is_candidate : ℕ → Backup → Bool
  is_candidate now b = is_owned tenant b && has_outlived b.expires_at now

  -- What the sweep removes, and what the preview lists as expiring.
  unfoldable pub is_eligible : ℕ → Backup → Bool
  is_eligible now b =
      is_candidate now b
      && not (floor_recent b)
      && not (floor_verified b)
      && not (is_busy tenant readers b)
