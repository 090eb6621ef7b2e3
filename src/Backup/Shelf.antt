-- ===== src/Backup/Shelf.antt =====
-- An object store that is a list of keys, with uploads, and a plugin's answer, for the examples.
use text.Mathlib.Text.{◌==◌ as str_eq}
use text.Mathlib.TextEquality.{eq_iff}
use fleetward.Base.{
  ◌≡◌, ◌≢◌, refl, sym, ◌∙◌, inl, inr, Bool, true, false, not, List, [], ◌∷◌, none, some, ℕ, ◌⊎◌,
  String, arith, Bool-cases, exists, where_rows,
}
use fleetward.Backup.Retention.Sweep.{ObjectStore}
use fleetward.Backup.Runs.{RpcError}
use fleetward.Backup.Runs.Transfer.{Part, BackupResult, Recv, Uploads}
use fleetward.Backup.Runs.Transfer as Transfer

abbrev pub holds_key : String → List String → Bool
holds_key k = exists λ key. str_eq key k

abbrev pub without : String → List String → List String
without k = where_rows λ key. not (str_eq key k)

pub without-gone : (k : String) (o : List String) → holds_key k (without k o) ≡ false
without-gone k [] = refl
without-gone k (key ∷ o) = elim (Bool-cases (str_eq key k)) [
  | inl hit ↦ rw hit (without-gone k o)
  | inr miss ↦ rw miss (rw miss (without-gone k o))
]

pub without-only :
    (k k' : String) (o : List String) → holds_key k' o ≡ false → holds_key k' (without k o) ≡ false
without-only k k' [] h = refl
without-only k k' (key ∷ o) h = elim (Bool-cases (str_eq key k)) [
  | inl hit ↦ rw hit (without-only k k' o (ground arith))
  | inr miss ↦ rw miss (ground (arith, without-only k k' o))
]

pub without-other :
    (k k' : String) (o : List String)
    → k ≢ k'
    → holds_key k' o ≡ true
    → holds_key k' (without k o) ≡ true
without-other k k' [] other h = h
without-other k k' (key ∷ o) other h = elim (Bool-cases (str_eq key k)) [
  | inr miss ↦ rw miss (ground (arith, without-other k k' o other))
  | inl hit ↦ rw hit (elim (Bool-cases (str_eq key k')) [
    | inl both ↦ absurd (other (sym ((eq_iff key k).0 hit) ∙ (eq_iff key k').0 both))
    | inr apart ↦ without-other k k' o other (ground arith)
  ])
]

-- It deletes what it is asked to.
abbrev pub shelf : ObjectStore
shelf = record {
  Objects = List String;
  bucket = "artifacts";
  present = holds_key;
  delete = λ k o. (without k o, none);
  delete_gone = λ k o e. without-gone k o;
  delete_only = without-only;
  delete_other = without-other;
}

pub holds_key-first : (k : String) (o : List String) → holds_key k (k ∷ o) ≡ true
holds_key-first k o = let same : str_eq k k ≡ true = (eq_iff k k).1 refl in rw same refl

pub holds_key-rest :
    (k k' : String) (o : List String) → k ≢ k' → holds_key k' (k ∷ o) ≡ holds_key k' o
holds_key-rest k k' o other = elim (Bool-cases (str_eq k k')) [
  | inl same ↦ absurd (other ((eq_iff k k').0 same))
  | inr apart ↦ rw apart
]

pub never : {n : ℕ} (why : String) → ◌≡◌ {A = String ⊎ ℕ} (inr n) (inl why) → ⊥
never why e = cc

-- Every completed upload has 64 bytes.
abbrev pub uploads : Uploads shelf
uploads = record {
  create = λ k o. (o, inr "upload");
  abort = λ k u o. (o, none);
  complete = λ k u parts o. (k ∷ o, inr 64);
  create_hidden = λ k k' o. refl;
  abort_hidden = λ k u k' o. refl;
  complete_shows = λ k u parts o size e. holds_key-first k o;
  complete_other = λ k u k' parts o other. holds_key-rest k k' o other;
}

abbrev pub result : ℕ → String → BackupResult
result size external_id = record {
  parts = record { part_number = 1; etag = "e" } ∷ [];
  size_bytes = size;
  checksum_value = "9f86d081";
  external_id = external_id;
  artifact = none;
}

-- The plugin works, and then reports a backup of as many bytes, under the engine's identity.
abbrev pub messages : ℕ → String → RpcError ⊎ List Recv
messages size external_id = inr (
    Transfer.progress Transfer.working
    ∷ Transfer.progress (Transfer.completed (some (result size external_id)))
    ∷ [])
