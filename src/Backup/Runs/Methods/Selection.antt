-- ===== src/Backup/Runs/Methods/Selection.antt =====
-- The method that a run takes: selectMethod of internal/controlplane/backup/service.go.
use text.Mathlib.Text.{◌==◌ as str_eq}
use mathlib.Core.Bool.{true≢false}
use fleetward.Base.{
  ◌≡◌, refl, inl, inr, Bool, true, false, not, List, [], ◌∷◌, ◌++◌, Option, none, some, ◌&&◌, arith,
  Bool-cases, sym, ◌∙◌, ◌==◌,
}
use fleetward.Backup.Runs.Methods.{
  BackupMethod, Capabilities, Complaint, complain, count_where, is_empty, defaults, find_method,
  default_backup_method, validate_capabilities, no_engine_type, no_plugin_version,
  method_complaints, pitr_complaints, sandbox_complaints, lag_without_replication,
  history_complaints, metric_complaints, not_one_default, select_method,
}

tail-nil {ℓ} : {A : Type ℓ} → (xs : List A) → {ys : List A} → xs ++ ys ≡ [] → ys ≡ []
tail-nil [] e = e
tail-nil (x ∷ xs) e = absurd (cc)

head-nil {ℓ} : {A : Type ℓ} → (xs ys : List A) → xs ++ ys ≡ [] → xs ≡ []
head-nil [] ys e = refl
head-nil (x ∷ xs) ys e = absurd (cc)

complain-nil : (b : Bool) → (c : Complaint) → complain b c ≡ [] → b ≡ false
complain-nil true c e = absurd (cc)
complain-nil false c e = refl

-- The method that is found passes the test; none passes when none is found.
find_method-passes :
    (p : BackupMethod → Bool)
    → (ms : List BackupMethod) → {m : BackupMethod} → find_method p ms ≡ some m
    → p m ≡ true
unfolding find_method
find_method-passes p [] e = absurd (cc)
find_method-passes p (x ∷ xs) {m} e = elim (Bool-cases (p x)) [
  | inl hit ↦ ground arith
  | inr miss ↦ find_method-passes p xs (ground arith)
]

find_method-none :
    (p : BackupMethod → Bool)
    → (ms : List BackupMethod) → find_method p ms ≡ none
    → count_where p ms ≡ 0
unfolding find_method
find_method-none p [] e = refl
find_method-none p (x ∷ xs) e = elim (Bool-cases (p x)) [
  | inl hit ↦ absurd (ground arith)
  | inr miss ↦ rw miss (find_method-none p xs (ground arith))
]

-- Of methods that pass the check some are declared, exactly one is the default.
valid-defaults :
    (caps : Capabilities)
    → is_empty caps.backup_methods ≡ false
    → validate_capabilities (some caps) ≡ []
    → (defaults caps.backup_methods == 1) ≡ true
unfolding validate_capabilities
valid-defaults caps some_listed e =
    let fourth =
      head-nil
        (complain (not (is_empty caps.backup_methods) && not (defaults caps.backup_methods == 1))
          (not_one_default (defaults caps.backup_methods)))
        (pitr_complaints caps
          ++ (sandbox_complaints caps
              ++ (complain (caps.supports_replication_lag && not caps.supports_replication)
                    lag_without_replication
                  ++ (history_complaints caps.backup_history
                      ++ metric_complaints [] caps.metrics))))
        (tail-nil (method_complaints [] caps.backup_methods) (
          tail-nil (complain (str_eq caps.plugin_version "") no_plugin_version)
            (tail-nil (complain (str_eq caps.engine_type "") no_engine_type) e))) in
    by_cases _ _ some_listed (complain-nil _ _ fourth)
  where
    by_cases : (b c : Bool) → b ≡ false → not b && not c ≡ false → c ≡ true
    by_cases b true h k = refl
    by_cases true false h k = absurd (cc)
    by_cases false false h k = absurd (cc)

-- A run that names no method, of a plugin that passes ValidateCapabilities and declares a method, is
-- given the method that is marked default, and only one is marked so.
pub the_default_is_taken :
    (caps : Capabilities)
    → is_empty caps.backup_methods ≡ false
    → validate_capabilities (some caps) ≡ []
    → (m : BackupMethod) × (select_method caps "" ≡ inr m)
      × (m.is_default ≡ true)
      × ((defaults caps.backup_methods == 1) ≡ true)
unfolding select_method default_backup_method
the_default_is_taken caps some_listed valid =
    let one = valid-defaults caps some_listed valid in
    go (find_method (λ m. m.is_default) caps.backup_methods) refl one
  where
    go :
        (o : Option BackupMethod)
        → find_method (λ m. m.is_default) caps.backup_methods ≡ o
        → (defaults caps.backup_methods == 1) ≡ true
        → (m : BackupMethod) × (select_method caps "" ≡ inr m)
          × (m.is_default ≡ true)
          × ((defaults caps.backup_methods == 1) ≡ true)
    go none e one = absurd (
        true≢false (sym one ∙ rw (find_method-none (λ m. m.is_default) caps.backup_methods e) refl))
    go (some m) e one = (
      m,
      rw some_listed (rw e refl),
      find_method-passes (λ x. x.is_default) caps.backup_methods e,
      one,
    )
