-- ===== src/Alerts/Evaluators/Verdicts.antt =====
-- Which verdicts fire.
use fleetward.Base.{
  ℕ, ◌≡◌, refl, ap, ◌∙◌, subst, Option-cases, inl, inr, true, false, ◌&&◌, List, [], ◌∷◌, Option,
  none, some, arith, ltb, ◌==◌, Bool-cases, All, All-map, All-append, IsKeyed, row, row-none,
}
use fleetward.Scheduler.Rows.{VerificationState}
use fleetward.Alerts.Rules.{Condition}
use fleetward.Alerts.Estate.{InstanceRow, VerdictRow, AttemptRow, Texts, Estate}
use fleetward.Alerts.Evaluators.Verifications.{
  verdict_fires, is_conclusive, later_verdict, latest_verdict, is_latest, has_failed,
  verification_of_instance, verification_of_backup, verifications_from, verification_failed,
}

module _ {A : Type 0} (key : A → ℕ) where
  -- By a unique key, two rows with the same key are the same.
  abbrev IsUnique : List A → A → Type 0
  IsUnique xs v = All (λ x. (key x == key v) ≡ true → x ≡ v) xs

  IsKeyed-IsUnique : (xs : List A) → IsKeyed key xs → All (IsUnique xs) xs
  IsKeyed-IsUnique [] k = tt
  IsKeyed-IsUnique (x ∷ xs) k = (
    (λ _. refl, All-map (λ y apart same. absurd (ground arith)) xs (row-none key (key x) xs k.0)),
    both xs (row-none key (key x) xs k.0) (IsKeyed-IsUnique xs k.1),
  )
    where
      both :
          (ys : List A)
          → All (λ y. (key y == key x) ≡ false) ys
          → All (IsUnique xs) ys
          → All (IsUnique (x ∷ xs)) ys
      both [] apart unique = tt
      both (y ∷ ys) apart unique =
          ((λ same. absurd (ground arith), unique.0), both ys apart.1 unique.1)

latest_verdict-All :
    (Q : VerdictRow → Type 0) (id : ℕ) (vs : List VerdictRow) {w : VerdictRow}
    → All Q vs
    → latest_verdict id vs ≡ some w
    → Q w × (w.backup_id ≡ id)
unfolding latest_verdict
latest_verdict-All Q id [] all e = absurd (cc)
latest_verdict-All Q id (v ∷ vs) {w} all e =
    elim (Bool-cases (v.backup_id == id && is_conclusive v.status)) [
      | inr other ↦ latest_verdict-All Q id vs {w = w} all.1 (ground arith)
      | inl counts ↦
          later (λ x found. latest_verdict-All Q id vs {w = x} all.1 found) (latest_verdict id vs)
            refl (ground arith) (ground arith)
    ]
  where
    later :
        ((x : VerdictRow) → latest_verdict id vs ≡ some x → Q x × (x.backup_id ≡ id))
        → (o : Option VerdictRow) → latest_verdict id vs ≡ o
        → v.backup_id ≡ id
        → later_verdict v o ≡ some w
        → Q w × (w.backup_id ≡ id)
    later more none found of e' = subst (λ x. Q x × (x.backup_id ≡ id)) (ground arith) (all.0, of)
    later more (some x) found of e' = elim (Bool-cases (ltb v.created_at x.created_at)) [
      | inl newer ↦ subst (λ y. Q y × (y.backup_id ≡ id)) (ground arith) (more x found)
      | inr older ↦ subst (λ y. Q y × (y.backup_id ≡ id)) (ground arith) (all.0, of)
    ]

module _ (texts : Texts) (tenant : ℕ) (instances : List InstanceRow) (attempts : List AttemptRow)
    (verdicts : List VerdictRow) where
  -- The last verdict that counts, on the backup that the fingerprint names, is that it failed.
  abbrev pub IsProvenBad : Condition → Type 0
  IsProvenBad c =
      (v : VerdictRow) × (c.fingerprint.subject ≡ some v.backup_id)
      × (latest_verdict v.backup_id verdicts ≡ some v)
      × (v.status ≡ VerificationState.failed)

  fires_failed : (s : VerificationState) → verdict_fires s ≡ true → s ≡ VerificationState.failed
  fires_failed VerificationState.failed h = refl
  fires_failed VerificationState.pending h = absurd (cc)
  fires_failed _ h = absurd (cc)

  status_failed :
      (v : VerdictRow) → has_failed tenant verdicts v ≡ true → v.status ≡ VerificationState.failed
  unfolding has_failed
  status_failed v h = fires_failed v.status (ground arith)

  failed_last :
      (v : VerdictRow)
      → IsUnique (λ x. x.id) verdicts v
      → has_failed tenant verdicts v ≡ true
      → latest_verdict v.backup_id verdicts ≡ some v
  unfolding has_failed
  failed_last v unique h = elim (Option-cases (latest_verdict v.backup_id verdicts)) [
    | inl nothing ↦ let e = ap (is_latest v) nothing in absurd (ground arith)
    | inr (w, found) ↦
        let e = ap (is_latest v) found in
        let same : w ≡ v =
          (latest_verdict-All (λ x. (x.id == v.id) ≡ true → x ≡ v) v.backup_id verdicts unique
              found).0
            (ground arith) in
        found ∙ ap some same
  ]

  verification_of_backup-All :
      (v : VerdictRow) (o : Option AttemptRow)
      → latest_verdict v.backup_id verdicts ≡ some v
      → v.status ≡ VerificationState.failed
      → All IsProvenBad (verification_of_backup texts instances v o)
  verification_of_backup-All v none last failed = tt
  verification_of_backup-All v (some b) last failed =
      of_instance (row (λ i. i.id) b.instance_id instances)
    where
      of_instance : (o : Option InstanceRow) → All IsProvenBad (verification_of_instance texts v o)
      of_instance none = tt
      of_instance (some i) = ((v, refl, last, failed), tt)

  verifications_from-All :
      (vs : List VerdictRow)
      → All (IsUnique (λ x. x.id) verdicts) vs
      → All IsProvenBad (verifications_from texts tenant instances attempts verdicts vs)
  unfolding verifications_from
  verifications_from-All [] unique = tt
  verifications_from-All (v ∷ vs) unique = elim (Bool-cases (has_failed tenant verdicts v)) [
    | inr not_failed ↦ rw not_failed (verifications_from-All vs unique.1)
    | inl failed ↦ rw failed (
        All-append IsProvenBad _ _
          (verification_of_backup-All v (row (λ b. b.id) v.backup_id attempts)
            (failed_last v unique.0 failed) (status_failed v failed))
          (verifications_from-All vs unique.1))
  ]

-- Where ids are unique, a backup is reported as one that failed verification only if the last verdict
-- on it that counts is that it failed: a verdict that is inconclusive reports nothing, and hides an
-- older one that did.
pub verification_failed-IsProvenBad :
    (texts : Texts) (tenant : ℕ) (e : Estate)
    → IsKeyed (λ v. v.id) e.verdicts
    → All
        (IsProvenBad texts tenant e.instances e.attempts e.verdicts)
        (verification_failed texts tenant e)
verification_failed-IsProvenBad texts tenant e keyed =
    verifications_from-All texts tenant e.instances e.attempts e.verdicts e.verdicts
      (IsKeyed-IsUnique (λ v. v.id) e.verdicts keyed)
