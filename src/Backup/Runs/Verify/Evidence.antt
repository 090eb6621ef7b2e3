-- ===== src/Backup/Runs/Verify/Evidence.antt =====
-- What a conclusion rests on.
use text.Mathlib.Text.{◌==◌ as str_eq}
use fleetward.Base.{
  ℕ, ◌≡◌, refl, ◌≢◌, ◌⊎◌, inl, inr, Bool, true, Option, none, some, String, arith, ◌==◌, Bool-cases,
}
use fleetward.Backup.Runs.{PluginError, RpcError}
use fleetward.Backup.Runs.Verify.{
  VerificationStatus, unspecified, verified, failed, inconclusive, unknown, Outcome, RestoreEnd,
  restored, plugin_failed, other_error, restore, is_bad_artifact, classify_restore_outcome,
  VerifyAnswer, spoken, conclude, after_restore, Plugin, restore_and_verify, Provider,
  after_destroy, in_sandbox, with_grant, run_verification,
}

-- The plugin restored the artifact, and answered with this status.
abbrev pub Answered : Plugin → VerificationStatus → Type 0
Answered plugin status =
    (a : VerifyAnswer) × (restore plugin.restores ≡ restored)
    × (plugin.verifies ≡ inr a)
    × (a.status ≡ status)

-- The plugin's restore failed and blamed the artifact, or a tool could not load it.
abbrev pub Blamed : Plugin → Type 0
Blamed plugin =
    (e : PluginError) × (restore plugin.restores ≡ plugin_failed e) × (is_bad_artifact e ≡ true)

abbrev pub RestsOn : Plugin → VerificationStatus → Type 0
RestsOn plugin verified = Answered plugin verified
RestsOn plugin failed = Answered plugin failed ⊎ Blamed plugin
RestsOn plugin inconclusive = Unit
RestsOn plugin unspecified = ⊥
RestsOn plugin (unknown n) = Answered plugin (unknown n)

module _ (plugin : Plugin) where
  spoken-RestsOn :
      (a : VerifyAnswer) (s : VerificationStatus)
      → restore plugin.restores ≡ restored
      → plugin.verifies ≡ inr a
      → a.status ≡ s
      → RestsOn plugin (spoken s)
  spoken-RestsOn a verified done said e = (a, done, said, e)
  spoken-RestsOn a failed done said e = inl (a, done, said, e)
  spoken-RestsOn a (unknown n) done said e = (a, done, said, e)
  spoken-RestsOn a inconclusive done said e = tt
  spoken-RestsOn a unspecified done said e = tt

  conclude-RestsOn :
      (box : String) (answer : RpcError ⊎ VerifyAnswer)
      → restore plugin.restores ≡ restored
      → plugin.verifies ≡ answer
      → RestsOn plugin (conclude box answer).status
  conclude-RestsOn box (inl e) done said = tt
  conclude-RestsOn box (inr a) done said = spoken-RestsOn a a.status done said refl

  after_restore-RestsOn :
      (box : String) (end : RestoreEnd)
      → restore plugin.restores ≡ end
      → RestsOn plugin (after_restore box plugin.verifies end).status
  unfolding classify_restore_outcome
  after_restore-RestsOn box restored e = conclude-RestsOn box plugin.verifies e refl
  after_restore-RestsOn box (other_error why) e = tt
  after_restore-RestsOn box (plugin_failed pe) e = elim (Bool-cases (is_bad_artifact pe)) [
    | inl bad ↦ rw bad (inr (pe, e, bad))
    | inr other ↦ rw other tt
  ]

  restore_and_verify-RestsOn :
      (box : String) → RestsOn plugin (restore_and_verify plugin box).status
  unfolding restore_and_verify
  restore_and_verify-RestsOn box = after_restore-RestsOn box (restore plugin.restores) refl

  module _ (provider : Provider) where
    after_destroy-RestsOn :
        (result : Outcome) (d : provider.World × Option String)
        → RestsOn plugin result.status
        → RestsOn plugin (after_destroy provider result d).1.status
    after_destroy-RestsOn result (w, none) rests = rests
    after_destroy-RestsOn result (w, some why) rests =
        elim (Bool-cases (str_eq result.sandbox_id "")) [
          | inl unnamed ↦ rw unnamed tt
          | inr named ↦ rw named rests
        ]

    in_sandbox-RestsOn :
        (p : provider.World × (String ⊎ String))
        → RestsOn plugin (in_sandbox provider (restore_and_verify plugin) p).1.status
    in_sandbox-RestsOn (w, inl why) = tt
    in_sandbox-RestsOn (w, inr box) =
        after_destroy-RestsOn (restore_and_verify plugin box) (provider.destroy box w)
          (restore_and_verify-RestsOn box)

    with_grant-RestsOn :
        (grant : String ⊎ String) (w : provider.World)
        → RestsOn plugin (with_grant provider plugin grant w).1.status
    with_grant-RestsOn (inl why) w = tt
    with_grant-RestsOn (inr url) w = in_sandbox-RestsOn (provider.provision w)

    -- A conclusion rests on evidence, whatever fails on the way: verified means that the backup has a
    -- manifest, that the plugin restored the artifact and that it then answered that it is
    -- verified; failed means the same of an answer that it failed, or that the restore failed
    -- and the plugin blamed the artifact or a tool of the engine could not load it; no run concludes
    -- without a status. Everything else is inconclusive.
    pub run_verification-RestsOn :
        (entries : ℕ) (configured : Bool) (grant : String ⊎ String) (w : provider.World)
        → let status = (run_verification provider entries configured grant plugin w).1.status in
          RestsOn plugin status × ((entries ≢ 0) ⊎ (status ≡ inconclusive))
    unfolding run_verification
    run_verification-RestsOn entries configured grant w = elim (Bool-cases (entries == 0)) [
      | inl empty ↦ rw empty (tt, inr refl)
      | inr some' ↦ rw some' (elim (Bool-cases configured) [
        | inl on ↦ rw on (with_grant-RestsOn grant w, inl (λ e. ground arith))
        | inr off ↦ rw off (tt, inr refl)
      ])
    ]
