-- ===== src/Backup/System/Examples.antt =====
-- The theorems on interleavings, each applied to a small system.
use text.Mathlib.TextLemmas.{nil≢cons}
use fleetward.Base.{
  ℕ, zero, suc, ◌≡◌, refl, sym, ap, ◌⊎◌, inr, true, false, List, [], ◌∷◌, none, some, String, pos,
  row, update, exists,
}
use fleetward.Backup.Shelf.{shelf, uploads, holds_key, result, messages}
use fleetward.Backup.Retention.{Backup}
use fleetward.Backup.Observe.{
  ObservedBackup, succeeded, upsert_observed, Page, UpsertAnswers, observe_backup_history,
  observe_pages, observe_page, observe_record,
}
use fleetward.Backup.Observe.Repeated.{repeated_poll_discovers_nothing}
use fleetward.Backup.Runs.{RpcError}
use fleetward.Backup.Runs.Transfer.{BackupResult, transfer, stream, read_stream}
use fleetward.Backup.Runs.Recording.{
  has_identity, artifact_key, created_backup, succeed, record_backup_success,
}
use fleetward.Backup.System.{
  Event, begins, transfers, records, polls, Run, over, uploaded, System, find_run, step, run,
}
use fleetward.Backup.System.Keys.{has_slash}
use fleetward.Backup.System.Backed.{Stored}
use fleetward.Backup.System.Backed.Histories.{succeeded_backups_are_stored}
use fleetward.Backup.System.Race.{poll_loses_backup}

-- An id is as many letters.
abbrev unary : ℕ → String
unary zero = ""
unary (suc n) = String.◌∷◌ "a" (unary n)

unary-plain : (n : ℕ) → has_slash (unary n) ≡ false
unary-plain zero = refl
unary-plain (suc n) = unary-plain n

tails : {s t : String} → String.◌∷◌ "a" s ≡ String.◌∷◌ "a" t → s ≡ t
tails e = cc

unary-injective : (m n : ℕ) → unary m ≡ unary n → m ≡ n
unary-injective zero zero e = refl
unary-injective zero (suc n) e = absurd (nil≢cons e)
unary-injective (suc m) zero e = absurd (nil≢cons (sym e))
unary-injective (suc m) (suc n) e = ap suc (unary-injective m n (tails e))

abbrev Small : Type 0
Small = System shelf uploads unary

abbrev nothing : Small
nothing = record { objects = []; backups = []; runs = [] }

nothing-Stored : Stored shelf uploads unary nothing
unfolding row
nothing-Stored = record {
  keyed = tt;
  runs_keyed = tt;
  rows = λ id b found. absurd (cc);
  ready = λ id r found. absurd (cc);
}

-- One backup runs, of 64 bytes.
abbrev one_run : List Event
one_run =
    begins 5 1 7 9 "full" (pos 30) 100 ∷ transfers 1 (messages 64 "") ∷ records 1 200 none ∷ []

abbrev placed : String → BackupResult
placed e = record (result 64 e) { artifact = some ("artifacts", artifact_key unary 5 7 1) }

abbrev finished : Backup
finished = succeed 200 (pos 30) (placed "") (created_backup 5 1 7 9 "full" 100)

one_run_succeeds :
    row (λ b. b.id) 1 (run shelf uploads unary nothing one_run).backups ≡ some finished
unfolding row run step transfer stream read_stream record_backup_success update artifact_key
one_run_succeeds = refl

succeeded_backups_are_stored_example :
    (finished.object_key ≡ artifact_key unary 5 7 1)
    × (holds_key finished.object_key (run shelf uploads unary nothing one_run).objects ≡ true)
succeeded_backups_are_stored_example =
    succeeded_backups_are_stored shelf uploads unary unary-injective unary-plain nothing one_run 1
      finished nothing-Stored one_run_succeeds refl refl

-- The same, but for its record, where the engine has an identity for it.
abbrev unrecorded : Small
unrecorded =
    run shelf uploads unary nothing
      (begins 5 1 7 9 "full" (pos 30) 100 ∷ transfers 1 (messages 64 "set-a") ∷ [])

abbrev waiting : Run
waiting = record {
  backup_id = 1;
  tenant_id = 5;
  instance_id = 7;
  retention_days = pos 30;
  phase = uploaded (placed "set-a");
}

abbrev evidence : ObservedBackup
evidence = record {
  external_id = "set-a";
  method = "D";
  outcome = succeeded;
  size_bytes = 64;
  started_at = some 100;
  finished_at = some 150;
}

waiting_found : find_run shelf uploads unary 1 unrecorded.runs ≡ some waiting
unfolding row run step transfer stream read_stream update artifact_key
waiting_found = refl

created_found : row (λ b. b.id) 1 unrecorded.backups ≡ some (created_backup 5 1 7 9 "full" 100)
unfolding row run step transfer stream read_stream update artifact_key
created_found = refl

free_id :
    (row (λ b. b.id) 2 unrecorded.backups ≡ none)
    × (find_run shelf uploads unary 2 unrecorded.runs ≡ none)
unfolding row run step transfer stream read_stream update artifact_key
free_id = (refl, refl)

no_evidence : exists (has_identity 7 "set-a") unrecorded.backups ≡ false
unfolding row run step transfer stream read_stream update artifact_key
no_evidence = refl

poll_loses_backup_example :
    let after =
      run shelf uploads unary unrecorded
        (polls 5 7 2 160 evidence none ∷ records 1 200 none ∷ []) in
    (row (λ b. b.id) 1 after.backups ≡ some (created_backup 5 1 7 9 "full" 100))
    × (find_run shelf uploads unary 1 after.runs ≡ some (record waiting { phase = over }))
poll_loses_backup_example =
    poll_loses_backup shelf uploads unary waiting (placed "set-a") refl unrecorded
      (created_backup 5 1 7 9 "full" 100) 5 2 160 200 evidence waiting_found refl created_found
      free_id.0 free_id.1 refl no_evidence

-- One page of the engine's history.
abbrev pages : List (RpcError ⊎ Page)
pages = inr (record { backups = evidence ∷ []; has_next = false }) ∷ []

abbrev willing : UpsertAnswers
willing = record { upsert_error = λ o. none; new_id = λ o. 2 }

repeated_poll_discovers_nothing_example :
    let after = (observe_backup_history willing 5 7 100 pages []).rows in
    (observe_backup_history willing 5 7 9000 pages after).result.discovered ≡ 0
repeated_poll_discovers_nothing_example =
    repeated_poll_discovers_nothing 7 5 100 9000 willing willing pages [] (
      unfold observe_backup_history observe_pages observe_page observe_record upsert_observed in
      refl)

first_poll_discovers : (observe_backup_history willing 5 7 100 pages []).result.discovered ≡ 1
unfolding observe_backup_history observe_pages observe_page observe_record upsert_observed
first_poll_discovers = refl
