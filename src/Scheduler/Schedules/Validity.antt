-- ===== src/Scheduler/Schedules/Validity.antt =====
-- What the checks of `CreateSchedule` and `SetScheduleEnabled` let into the table.
use text.Mathlib.Text.{◌==◌ as str_eq}
use text.Mathlib.TextEquality.{eq_iff}
use fleetward.Base.{
  ℕ, zero, suc, ◌≡◌, refl, sym, ◌≢◌, ◌⊎◌, inl, inr, Bool, true, List, ◌∷◌, some, String, arith,
  if◌then◌else◌, Bool-cases, ℤ, pos, negsuc, is_positive,
}
use fleetward.Scheduler.Cron.{Cron, Checked, ok, err, next_run}
use fleetward.Scheduler.Schedules.{
  Schedule, CreateScheduleInput, Refusal, Outcome, accept, refuse, ◌>>=◌, checked, default_to,
  schedule_kind, verify_policy_of, percent_in_range, sample_percent_of, retention_of, is_zero,
  is_negative, grace_or_default, validate_expectation, create_schedule, bad_schedule,
  bad_expectation,
}

-- A policy that the service knows, and a percentage that fits it.
abbrev pub IsPolicy : String → ℤ → Type 0
IsPolicy policy pct =
    ((policy ≡ "always") × (pct ≡ pos 100))
    ⊎ ((policy ≡ "manual") × (pct ≡ pos 100))
    ⊎ ((policy ≡ "sampled") × (percent_in_range pct ≡ true))

verify_policy_of-accept :
    (policy : String) {p : String}
    → verify_policy_of policy ≡ accept p
    → (p ≡ "always") ⊎ (p ≡ "sampled") ⊎ (p ≡ "manual")
unfolding verify_policy_of
verify_policy_of-accept policy h = ground (arith, eq_iff policy "sampled", eq_iff policy "manual")

sample_percent_of-accept :
    (policy : String) (pct : ℤ) {q : ℤ}
    → (policy ≡ "always") ⊎ (policy ≡ "sampled") ⊎ (policy ≡ "manual")
    → sample_percent_of policy pct ≡ accept q
    → IsPolicy policy q
unfolding sample_percent_of
sample_percent_of-accept policy pct known h = ground (arith, eq_iff policy "sampled")

retention_of-accept : (days : ℤ) {r : ℤ} → retention_of days ≡ accept r → is_positive r ≡ true
unfolding retention_of
retention_of-accept (pos zero) h = ground arith
retention_of-accept (pos (suc n)) h = ground arith
retention_of-accept (negsuc n) h = cc

pub Outcome-cases {ℓ} :
    {A : Type ℓ} (m : Outcome A) → ((a : A) × (m ≡ accept a)) ⊎ ((r : Refusal) × (m ≡ refuse r))
Outcome-cases (accept a) = inl (a, refl)
Outcome-cases (refuse r) = inr (r, refl)

pub checked-accept {ℓ} :
    {A : Type ℓ} (why : _ → Refusal) (m : Checked A) {a : A} → checked why m ≡ accept a → m ≡ ok a
checked-accept why (ok a) h = cc
checked-accept why (err e) h = cc

pub accept-injective {ℓ} : {A : Type ℓ} {a b : A} → accept a ≡ accept b → a ≡ b
accept-injective h = cc

pub refuse-ne-accept {ℓ} : {A : Type ℓ} {r : Refusal} {b : A} → refuse r ≡ accept b → ⊥
refuse-ne-accept h = cc

-- An expectation is declared whole or not at all, and what is declared has a positive grace.
abbrev pub IsExpectation : String → ℤ → Type 0
IsExpectation expr grace =
    ((expr ≡ "") × (grace ≡ pos 0)) ⊎ ((expr ≢ "") × (is_positive grace ≡ true))

module _ (cron : Cron) where
  validate_expectation-accept :
      (expr : String) (grace : ℤ) (timezone : String) (now : ℕ) {e : String × ℤ}
      → validate_expectation cron expr grace timezone now ≡ accept e
      → IsExpectation e.0 e.1
  unfolding validate_expectation
  validate_expectation-accept expr grace timezone now h = elim (Bool-cases (str_eq expr "")) [
    | inl empty ↦ undeclared grace (rw empty at h)
    | inr given ↦ declared grace (λ e. ground (arith, eq_iff expr "")) (rw given at h)
  ]
    where
      undeclared :
          (g : ℤ) {e : String × ℤ}
          → (if is_zero g then accept ("", pos 0) else refuse Refusal.grace_without_cron) ≡ accept e
          → IsExpectation e.0 e.1
      undeclared (pos zero) k = inl (ground arith)
      undeclared (pos (suc n)) k = cc
      undeclared (negsuc n) k = cc

      expected :
          (c : Outcome ℕ) (g : ℤ) {e : String × ℤ}
          → expr ≢ ""
          → is_positive g ≡ true
          → (c >>= λ _. accept (expr, g)) ≡ accept e
          → IsExpectation e.0 e.1
      expected (accept n) g ne p k = inr (ground arith)
      expected (refuse r) g ne p k = cc

      declared :
          (g : ℤ) {e : String × ℤ}
          → expr ≢ ""
          → (if is_negative g
              then refuse Refusal.negative_grace
              else checked bad_expectation (next_run cron expr timezone now) >>= λ _.
                  accept (expr, grace_or_default g))
            ≡ accept e
          → IsExpectation e.0 e.1
      declared (pos zero) ne k =
          expected (checked bad_expectation (next_run cron expr timezone now)) (pos 120) ne refl k
      declared (pos (suc m)) ne k =
          expected (checked bad_expectation (next_run cron expr timezone now)) (pos (suc m)) ne refl
            k
      declared (negsuc m) ne k = cc

  -- A schedule as the service stores it.
  pub record IsValid (now : ℕ) (s : Schedule) : Type 0 where
    pub policy : IsPolicy s.verify_policy s.verify_sample_percent
    pub retention : is_positive s.retention_days ≡ true
    pub expectation : IsExpectation s.expected_cron s.expected_grace_minutes
    pub enabled : s.is_enabled ≡ true
    pub planned :
        (n : ℕ) × (s.next_run_at ≡ some n) × (next_run cron s.cron_expression s.timezone now ≡ ok n)

  module _ (id tenant now : ℕ) (exists_instance : ℕ → Bool) (input : CreateScheduleInput)
      (rows : List Schedule) where
    -- A request that `CreateSchedule` accepts adds one row in front of the others: of this tenant
    -- and of an instance that exists, under a policy that the service knows with a percentage that
    -- fits it, with a positive retention, an expectation that is whole or absent, enabled, and with
    -- the next run that its own expression and time zone give.
    pub create_schedule-IsValid :
        {after : List Schedule}
        → create_schedule cron id tenant now exists_instance input rows ≡ accept after
        → (s : Schedule) × (after ≡ s ∷ rows)
          × (s.id ≡ id)
          × (s.tenant_id ≡ tenant)
          × (exists_instance s.instance_id ≡ true)
          × IsValid now s
    unfolding create_schedule
    create_schedule-IsValid h = elim (Outcome-cases (schedule_kind input.kind)) [
      | inr (r, refused) ↦ absurd (refuse-ne-accept (rw (refused, ◌>>=◌) at h))
      | inl (kind, kind_ok) ↦
          let h1 = rw (kind_ok, ◌>>=◌) at h in
          elim (Outcome-cases (
            checked bad_schedule
              (next_run cron input.cron_expression (default_to input.timezone "UTC") now))) [
                | inr (r, refused) ↦ absurd (refuse-ne-accept (rw (refused, ◌>>=◌) at h1))
                | inl (next, next_ok) ↦
                    let h2 = rw (next_ok, ◌>>=◌) at h1 in
                    elim (Outcome-cases (verify_policy_of input.verify_policy)) [
                      | inr (r, refused) ↦ absurd (refuse-ne-accept (rw (refused, ◌>>=◌) at h2))
                      | inl (policy, policy_ok) ↦
                          let h3 = rw (policy_ok, ◌>>=◌) at h2 in
                          elim (Outcome-cases
                            (sample_percent_of policy input.verify_sample_percent)) [
                              | inr (r, refused) ↦
                                  absurd (refuse-ne-accept (rw (refused, ◌>>=◌) at h3))
                              | inl (pct, pct_ok) ↦
                                  let h4 = rw (pct_ok, ◌>>=◌) at h3 in
                                  elim (Outcome-cases (retention_of input.retention_days)) [
                                    | inr (r, refused) ↦
                                        absurd (refuse-ne-accept (rw (refused, ◌>>=◌) at h4))
                                    | inl (retention, retention_ok) ↦
                                        let h5 = rw (retention_ok, ◌>>=◌) at h4 in
                                        elim (Outcome-cases (
                                          validate_expectation cron input.expected_cron
                                            input.expected_grace_minutes
                                            (default_to input.timezone "UTC") now)) [
                                              | inr (r, refused) ↦
                                                  absurd
                                                    (refuse-ne-accept (rw (refused, ◌>>=◌) at h5))
                                              | inl (expectation, expectation_ok) ↦
                                                  let h6 = rw (expectation_ok, ◌>>=◌) at h5 in
                                                  elim (Bool-cases
                                                    (exists_instance input.instance_id)) [
                                                      | inl found ↦ (
                                                        _,
                                                        sym (accept-injective (rw found at h6)),
                                                        refl,
                                                        refl,
                                                        found,
                                                        record {
                                                          policy =
                                                            sample_percent_of-accept policy
                                                            input.verify_sample_percent
                                                            (verify_policy_of-accept
                                                            input.verify_policy policy_ok)
                                                            pct_ok;
                                                          retention =
                                                            retention_of-accept input.retention_days
                                                            retention_ok;
                                                          expectation =
                                                            validate_expectation-accept
                                                            input.expected_cron
                                                            input.expected_grace_minutes
                                                            (default_to input.timezone "UTC") now
                                                            expectation_ok;
                                                          enabled = refl;
                                                          planned = (
                                                            next,
                                                            refl,
                                                            checked-accept bad_schedule _ next_ok,
                                                          );
                                                        },
                                                      )
                                                      | inr missing ↦
                                                          absurd
                                                            (refuse-ne-accept (rw missing at h6))
                                                    ]
                                            ]
                                  ]
                            ]
                    ]
              ]
    ]
