-- ===== src/Backup/Retention/Preview.antt =====
-- `PreviewRetention`: what the next sweep would do, read through the same query.
use text.Mathlib.Text.{◌==◌ as str_eq}
use Prim.Native.String.{◌++◌ as append, slice}
use fleetward.Base.{
  ℕ, zero, suc, ◌+◌, ◌/◌, ◌%◌, Bool, true, false, not, ◌&&◌, List, [], ◌∷◌, map, Option, none, some,
  String, ltb, leb, ◌==◌, if◌then◌else◌, pos_part, is_positive, where_rows, sort_on,
}
use fleetward.Backup.Retention.{
  Backup, Readers, floor_recent, floor_verified, is_busy, is_candidate,
}
use fleetward.Backup.Retention.Sweep.{RetentionPolicy, expiry, is_pending_artifact}

abbrev pub digit : ℕ → String
digit n = slice "0123456789" n (n + 1)

-- fmt's %d. A number has no more digits than its successor, which is the fuel.
unfoldable pub digits : ℕ → ℕ → String
digits zero n = ""
digits (suc fuel) n =
    let rest = digits fuel (n / 10) in if ltb n 10 then digit n else append rest (digit (n % 10))

abbrev pub decimal : ℕ → String
decimal n = digits (suc n) n

unfoldable pub recent_phrase : ℕ → String
recent_phrase min_keep =
    if leb min_keep 1
    then "it is this instance's most recent successful backup"
    else append "it is among this instance's "
        (append (decimal min_keep) " most recent successful backups")

unfoldable pub protection_reason : Bool → Bool → Bool → ℕ → String
protection_reason true true busy min_keep =
    append "kept: "
      (append (recent_phrase min_keep) ", and it is the most recent backup proven restorable")
protection_reason true false busy min_keep =
    append "kept: "
      (append (recent_phrase min_keep) ", which retention never deletes however old it is")
protection_reason false true busy min_keep =
    "kept: it is the most recent backup of this instance proven restorable, and deleting the last proof is worse than keeping one old artifact"
protection_reason false false true min_keep =
    "not deleted yet: something is verifying or restoring from it right now. It becomes eligible again as soon as that finishes"
protection_reason false false false min_keep = ""

pub record Protected : Type 0 where
  pub backup : Backup
  pub reason : String

-- The answer, of whose policy only the floor is computed.
pub record Preview : Type 0 where
  pub min_keep : ℕ
  pub expiring : List Backup
  pub reclaimable_bytes : ℕ
  pub protected : List Protected
  pub pending_deletion : List Backup

-- An empty instance id asks about the estate.
abbrev pub is_asked : Option ℕ → Backup → Bool
is_asked none b = true
is_asked (some instance_id) b = b.instance_id == instance_id

abbrev pub total_bytes : List Backup → ℕ
total_bytes [] = 0
total_bytes (b ∷ bs) = b.size_bytes + total_bytes bs

-- A floor below one is shown as one.
abbrev pub floor_of : RetentionPolicy → ℕ
floor_of policy = if is_positive policy.min_keep then pos_part policy.min_keep else 1

module _ (tenant : ℕ) (policy : RetentionPolicy) (instance_id : Option ℕ) (now : ℕ)
    (readers : Readers) (rows : List Backup) where
  -- ORDER BY c.expires_at, c.id.
  unfoldable pub candidates : List Backup
  candidates = sort_on expiry (
      sort_on (λ b. b.id)
        (where_rows
          (λ b. is_candidate tenant (floor_of policy) readers rows now b && is_asked instance_id b)
          rows))

  unfoldable pub reason_of : Backup → String
  reason_of b =
      protection_reason (floor_recent tenant (floor_of policy) readers rows b)
        (floor_verified tenant (floor_of policy) readers rows b) (is_busy tenant readers b)
        (floor_of policy)

  abbrev pub is_expiring : Backup → Bool
  is_expiring b = str_eq (reason_of b) ""

  unfoldable pub preview_pending_deletion : List Backup
  preview_pending_deletion =
      sort_on (λ b. b.updated_at)
        (where_rows (λ b. is_pending_artifact tenant b && is_asked instance_id b) rows)

  unfoldable pub preview_retention : Preview
  preview_retention = record {
    min_keep = floor_of policy;
    expiring = where_rows is_expiring candidates;
    reclaimable_bytes = total_bytes (where_rows is_expiring candidates);
    protected =
        map (λ b. record { backup = b; reason = reason_of b })
          (where_rows (λ b. not (is_expiring b)) candidates);
    pending_deletion = preview_pending_deletion;
  }
