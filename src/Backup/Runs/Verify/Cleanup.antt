-- ===== src/Backup/Runs/Verify/Cleanup.antt =====
-- No sandbox outlives its verification.
use fleetward.Base.{
  arith, ℕ, ◌≡◌, refl, ◌≢◌, ◌⊎◌, inl, inr, Bool, true, false, Option, none, some, String, ◌==◌,
  subst, sym, ap, Bool-cases, Option-cases,
}
use text.Mathlib.Text.{◌==◌ as str_eq}
use text.Mathlib.TextEquality.{eq_iff}
use fleetward.Backup.Runs.Verify.{
  Outcome, Plugin, restore_and_verify, Provider, after_destroy, in_sandbox, with_grant,
  run_verification,
}

module _ (provider : Provider) (plugin : Plugin) (id : String) where
  -- The runtime was just asked to destroy the sandbox, and answered an error.
  abbrev pub IsUndestroyed : provider.World → Type 0
  IsUndestroyed after =
      (w : provider.World) × (why : String) × (after ≡ (provider.destroy id w).0)
      × ((provider.destroy id w).1 ≡ some why)

  abbrev pub IsClean : provider.World → Type 0
  IsClean w = (provider.live id w ≡ false) ⊎ IsUndestroyed w

  destroyed-IsClean : (w : provider.World) → IsClean (provider.destroy id w).0
  destroyed-IsClean w = elim (Option-cases (provider.destroy id w).1) [
    | inl gone ↦ inl (provider.destroy_gone id w gone)
    | inr (why, failed) ↦ inr (w, why, refl, failed)
  ]

  after_destroy-world :
      (result : Outcome) (d : provider.World × Option String)
      → (after_destroy provider result d).0 ≡ d.0
  after_destroy-world result (w, none) = refl
  after_destroy-world result (w, some why) = refl

  in_sandbox-dead :
      (p : provider.World × (String ⊎ String))
      → (p.1 ≢ inr id → provider.live id p.0 ≡ false)
      → IsClean (in_sandbox provider (restore_and_verify plugin) p).0
  in_sandbox-dead (w, inl why) dead = inl (dead (λ e. cc))
  in_sandbox-dead (w, inr box) dead =
      subst IsClean
        (sym (after_destroy-world (restore_and_verify plugin box) (provider.destroy box w)))
        (elim (Bool-cases (str_eq box id)) [
          | inl same ↦
              let e : box ≡ id = (eq_iff box id).0 same in
              subst (λ i. IsClean (provider.destroy i w).0) (sym e) (destroyed-IsClean w)
          | inr other ↦ inl (provider.destroy_only box id w (dead (λ e. apart other e)))
        ])
    where
      apart : str_eq box id ≡ false → ◌≡◌ {A = String ⊎ String} (inr box) (inr id) → ⊥
      apart other e =
          let named : box ≡ id = ap (λ p. elim p [ inl why ↦ box | inr b ↦ b ]) e in
          let same : str_eq box id ≡ true = (eq_iff box id).1 named in absurd (ground arith)

  with_grant-dead :
      (grant : String ⊎ String) (w : provider.World)
      → provider.live id w ≡ false
      → IsClean (with_grant provider plugin grant w).0
  with_grant-dead (inl why) w dead = inl dead
  with_grant-dead (inr url) w dead =
      in_sandbox-dead (provider.provision w) (provider.provision_only id w dead)

  -- A sandbox that was not live before a verification is live after it only if the last thing that
  -- the runtime was asked was to destroy that very sandbox and it answered an error, whatever else
  -- fails on the way.
  pub run_verification-cleans_up :
      (entries : ℕ) (configured : Bool) (grant : String ⊎ String) (w : provider.World)
      → provider.live id w ≡ false
      → IsClean (run_verification provider entries configured grant plugin w).0
  unfolding run_verification
  run_verification-cleans_up entries configured grant w dead = elim (Bool-cases (entries == 0)) [
    | inl empty ↦ rw empty (inl dead)
    | inr some' ↦ rw some' (elim (Bool-cases configured) [
      | inl on ↦ rw on (with_grant-dead grant w dead)
      | inr off ↦ rw off (inl dead)
    ])
  ]
