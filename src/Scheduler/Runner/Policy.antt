-- ===== src/Scheduler/Runner/Policy.antt =====
-- Which backups a run has verified.
use text.Mathlib.Text.{◌==◌ as str_eq}
use text.Mathlib.TextEquality.{eq_iff}
use fleetward.Base.{
  ℕ, zero, suc, ◌<◌, ◌≡◌, ◌≢◌, ◌↔◌, ◌⊎◌, inl, inr, true, arith, Bool-cases, ℤ, pos, negsuc,
  pos_part,
}
use fleetward.Scheduler.Runner.{JobPayload, sampled, should_verify}

sampled_iff :
    (draw : ℕ) (percent : ℤ)
    → draw < 100
    → (sampled draw percent ≡ true) ↔ (draw < pos_part percent)
sampled_iff draw (negsuc n) h = ((λ e. cc), λ k. absurd (omega arith))
sampled_iff draw (pos zero) h = ((λ e. cc), λ k. absurd (omega arith))
sampled_iff draw (pos (suc n)) h = ((λ e. ground arith), λ k. ground arith)

-- Which backups are verified, for a draw below 100. An unset policy, and any that the code does not
-- know, verifies; the manual one never does; and of the hundred draws of a sampled one exactly those
-- below the percentage do, none for a percentage of zero or less and all for a hundred or more.
pub should_verify_iff :
    (draw : ℕ) (p : JobPayload)
    → draw < 100
    → (should_verify draw p ≡ true) ↔ (
        ((p.verify_policy ≢ "sampled") × (p.verify_policy ≢ "manual"))
        ⊎ ((p.verify_policy ≡ "sampled") × (draw < pos_part p.verify_sample_percent)))
unfolding should_verify
should_verify_iff draw p h = elim (Bool-cases (str_eq p.verify_policy "sampled")) [
  | inl same ↦
      let is_sampled = (eq_iff p.verify_policy "sampled").0 same in
      rw same (
        (λ v. inr (is_sampled, (sampled_iff draw p.verify_sample_percent h).0 v)),
        λ c. elim c [
          | inl (other, _) ↦ absurd (other is_sampled)
          | inr (_, below) ↦ (sampled_iff draw p.verify_sample_percent h).1 below
        ],
      )
  | inr other ↦ rw other (
    (λ v. inl (
      (λ e. ground (arith, eq_iff p.verify_policy "sampled")),
      λ m. ground (arith, eq_iff p.verify_policy "manual"),
    )),
    λ c. elim c [
      | inl (_, not_manual) ↦ ground (arith, eq_iff p.verify_policy "manual")
      | inr (e, _) ↦ ground (arith, eq_iff p.verify_policy "sampled")
    ],
  )
]
