-- ===== src/Backup/Runs/Verify/Recorded.antt =====
-- What `recordVerification` writes, and which verdict raises an alert.
use fleetward.Base.{
  ℕ, ◌≡◌, refl, ap, ◌∙◌, sym, subst, ◌≢◌, ◌⊎◌, inl, inr, Bool, true, String, arith, if◌then◌else◌,
}
use fleetward.Scheduler.Rows.{JobState}
use fleetward.Alerts.Evaluators.Verifications.{verdict_fires}
use fleetward.Backup.Runs.Verify.{
  VerificationStatus, unspecified, verified, failed, inconclusive, unknown, Plugin, Provider,
  run_verification, verification_state_name, job_state_of, is_inconclusive,
}
use fleetward.Backup.Runs.Verify.Evidence.{Answered, Blamed, RestsOn, run_verification-RestsOn}

fires_failed :
    (s : VerificationStatus) → verdict_fires (verification_state_name s) ≡ true → s ≡ failed
unfolding verification_state_name
fires_failed failed h = refl
fires_failed verified h = absurd (cc)
fires_failed inconclusive h = absurd (cc)
fires_failed unspecified h = absurd (cc)
fires_failed (unknown n) h = absurd (cc)

-- The verdict that a verification records fires the alert of a failed one only on evidence about the
-- backup: it carries a manifest, and the plugin restored it and answered that it failed, or
-- could not restore it and blamed the artifact or a tool of the engine. A sandbox, a grant or a
-- transfer that fails fires nothing. And the job of such a run succeeds.
pub firing_verdict_rests_on_evidence :
    (provider : Provider) (entries : ℕ) (configured : Bool) (grant : String ⊎ String)
    (plugin : Plugin) (w : provider.World)
    → let status = (run_verification provider entries configured grant plugin w).1.status in
      verdict_fires (verification_state_name status) ≡ true
      → (entries ≢ 0)
        × (Answered plugin failed ⊎ Blamed plugin)
        × (job_state_of status ≡ JobState.succeeded)
unfolding job_state_of
firing_verdict_rests_on_evidence provider entries configured grant plugin w fires =
    let status = (run_verification provider entries configured grant plugin w).1.status in
    let e : status ≡ failed = fires_failed status fires in
    let (rests, founded) = run_verification-RestsOn plugin provider entries configured grant w in
    (
      elim founded [ inl some' ↦ some' | inr lost ↦ absurd (apart (sym e ∙ lost)) ],
      subst (RestsOn plugin) e rests,
      ap (λ s. if is_inconclusive s then JobState.failed else JobState.succeeded) e,
    )
  where
    apart : failed ≡ inconclusive → ⊥
    apart h = let b = ap is_inconclusive h in absurd (ground arith)
