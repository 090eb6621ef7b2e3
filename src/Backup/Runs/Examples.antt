-- ===== src/Backup/Runs/Examples.antt =====
-- The theorems on transfers and verifications, each applied to a store, a runtime and a plugin's answers.
use text.Mathlib.Text.{◌==◌ as str_eq}
use text.Mathlib.TextEquality.{eq_iff}
use fleetward.Base.{
  ℕ, ◌≡◌, refl, ap, ◌≢◌, ◌⊎◌, inl, inr, true, false, List, [], ◌∷◌, none, String, Bool-cases,
}
use fleetward.Scheduler.Rows.{JobState}
use fleetward.Backup.Shelf.{
  shelf, uploads, messages, holds_key, without, without-gone, without-only,
}
use fleetward.Backup.Runs.{tool_failed, PluginError, is_artifact_corrupt, transport}
use fleetward.Backup.Runs.Transfer.{Part, BackupResult, Recv, Uploads, stream, transfer}
use fleetward.Backup.Runs.Transfer as Transfer
use fleetward.Backup.Runs.Verify.{
  failed, inconclusive, Plugin, Provider, run_verification, job_state_of, verification_state_name,
  restore_and_verify, restore, read_restore, classify_restore_outcome, is_bad_artifact,
}
use fleetward.Backup.Runs.Verify as Verify
use fleetward.Alerts.Evaluators.Verifications.{verdict_fires}
use fleetward.Backup.Runs.Verify.Evidence.{Answered, Blamed, RestsOn, run_verification-RestsOn}
use fleetward.Backup.Runs.Verify.Cleanup.{IsClean, run_verification-cleans_up}
use fleetward.Backup.Runs.Verify.Recorded.{firing_verdict_rests_on_evidence}

transfer_keeps : (transfer shelf uploads "a" (messages 64 "") []).0 ≡ "a" ∷ []
unfolding transfer stream Transfer.read_stream
transfer_keeps = refl

transfer_deletes_another_size : (transfer shelf uploads "a" (messages 65 "") []).0 ≡ []
unfolding transfer stream Transfer.read_stream
transfer_deletes_another_size = refl

box-only :
    (id : String) (w : List String)
    → holds_key id w ≡ false
    → ◌≢◌ {A = String ⊎ String} (inr "box") (inr id)
    → holds_key id ("box" ∷ w) ≡ false
box-only id w dead other = elim (Bool-cases (str_eq "box" id)) [
  | inl same ↦ absurd (other (ap inr ((eq_iff "box" id).0 same)))
  | inr apart ↦ rw apart dead
]

-- Each of its sandboxes is the list's next, and is destroyed when it is asked to.
abbrev runtime : Provider
runtime = record {
  World = List String;
  live = holds_key;
  provision = λ w. ("box" ∷ w, inr "box");
  destroy = λ box w. (without box w, none);
  provision_only = box-only;
  destroy_only = without-only;
  destroy_gone = λ box w e. without-gone box w;
}

abbrev unloadable : PluginError
unloadable = record { code = tool_failed; message = "unexpected end of file"; artifact = "" }

-- The engine's own tool cannot load the artifact.
abbrev plugin : Plugin
plugin = record {
  restores =
      inr
        (Verify.progress Verify.working ∷ Verify.progress (Verify.restore_failed unloadable) ∷ []);
  verifies = inl (transport "never asked");
}

abbrev verification : List String × Verify.Outcome
verification = run_verification runtime 3 true (inr "url") plugin []

run_verification-RestsOn_example :
    RestsOn plugin verification.1.status
    × (◌≢◌ {A = ℕ} 3 0 ⊎ (verification.1.status ≡ inconclusive))
run_verification-RestsOn_example = run_verification-RestsOn plugin runtime 3 true (inr "url") []

run_verification-cleans_up_example : IsClean runtime plugin "box" verification.0
run_verification-cleans_up_example =
    run_verification-cleans_up runtime plugin "box" 3 true (inr "url") [] refl

verification_fails : verification.1.status ≡ failed
unfolding run_verification restore_and_verify restore read_restore classify_restore_outcome
    is_bad_artifact is_artifact_corrupt
verification_fails = refl

verification_fires : verdict_fires (verification_state_name verification.1.status) ≡ true
unfolding verification_state_name
verification_fires = ap (λ s. verdict_fires (verification_state_name s)) verification_fails

firing_verdict_rests_on_evidence_example :
    (◌≢◌ {A = ℕ} 3 0)
    × (Answered plugin failed ⊎ Blamed plugin)
    × (job_state_of verification.1.status ≡ JobState.succeeded)
firing_verdict_rests_on_evidence_example =
    firing_verdict_rests_on_evidence runtime 3 true (inr "url") plugin [] verification_fires
