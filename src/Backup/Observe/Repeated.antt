-- ===== src/Backup/Observe/Repeated.antt =====
-- A poll that reads what an earlier one has read.
use text.Mathlib.Text.{◌==◌ as str_eq}
use text.Mathlib.TextEquality.{eq_iff}
use fleetward.Base.{
  ℕ, zero, suc, ◌≡◌, refl, sym, ap, subst, ◌∙◌, ◌⊎◌, inl, inr, Bool, true, false, not, ◌||◌, List,
  [], ◌∷◌, ◌++◌, Option, none, some, String, arith, Bool-cases, All, All-map, exists, is_some,
  update,
}
use fleetward.Backup.Retention.{Backup}
use fleetward.Backup.Runs.{RpcError}
use fleetward.Backup.Runs.Recording.{has_identity}
use fleetward.Backup.Observe.{
  ObservedBackup, observed_row, revise, is_revised, upsert_observed, Page, Poll, UpsertAnswers,
  no_identity, written, observe_record, observe_page, observe_pages, observe_backup_history,
}

exists-update :
    (p q : Backup → Bool) (f : Backup → Backup)
    → ((b : Backup) → p (f b) ≡ p b)
    → (rows : List Backup) → exists p (update q f rows) ≡ exists p rows
unfolding update
exists-update p q f same [] = refl
exists-update p q f same (b ∷ bs) = ground (arith, same b, exists-update p q f same bs)

exists-more :
    (p : Backup → Bool) (rows more : List Backup)
    → exists p rows ≡ true
    → exists p (rows ++ more) ≡ true
exists-more p [] more h = absurd (cc)
exists-more p (b ∷ bs) more h = ground (arith, exists-more p bs more)

exists-last :
    (p : Backup → Bool) (rows : List Backup) (b : Backup)
    → p b ≡ true
    → exists p (rows ++ b ∷ []) ≡ true
exists-last p [] b h = ground arith
exists-last p (c ∷ cs) b h = ground (arith, exists-last p cs b h)

module _ (instance_id : ℕ) where
  -- A row has the identity of this evidence.
  abbrev Known : List Backup → ObservedBackup → Type 0
  Known rows o = exists (has_identity instance_id o.external_id) rows ≡ true

  -- Of the pages that a poll reads, all evidence is known.
  abbrev Covered : ℕ → List (RpcError ⊎ Page) → List Backup → Type 0
  Covered zero answers rows = Unit
  Covered (suc n) [] rows = Unit
  Covered (suc n) (inl e ∷ answers) rows = Unit
  Covered (suc n) (inr page ∷ answers) rows =
      All (Known rows) page.backups × (page.has_next ≡ true → Covered n answers rows)

  Covered-keeps :
      (n : ℕ) (answers : List (RpcError ⊎ Page)) (rows rows' : List Backup)
      → ((e : ObservedBackup) → Known rows e → Known rows' e)
      → Covered n answers rows
      → Covered n answers rows'
  Covered-keeps zero answers rows rows' keeps covered = tt
  Covered-keeps (suc n) [] rows rows' keeps covered = tt
  Covered-keeps (suc n) (inl why ∷ answers) rows rows' keeps covered = tt
  Covered-keeps (suc n) (inr page ∷ answers) rows rows' keeps (known, rest) = (
    All-map keeps page.backups known,
    λ more. Covered-keeps n answers rows rows' keeps (rest more),
  )

  -- What an upsert answers, and what it leaves.
  abbrev Upserted :
      ℕ → ℕ → ℕ → ObservedBackup → List Backup → String ⊎ (List Backup × Bool) → Type 0
  Upserted tenant id now o rows r =
      ((why : String) × (r ≡ inl why))
      ⊎ ((Known rows o × (r ≡ inr (update (is_revised instance_id o) (revise now o) rows, false)))
          ⊎ ((exists (has_identity instance_id o.external_id) rows ≡ false)
              × (r ≡ inr (rows ++ observed_row tenant instance_id id now o ∷ [], true))))

  upsert_observed-Upserted :
      (answer : Option String) (tenant id now : ℕ) (o : ObservedBackup) (rows : List Backup)
      → Upserted tenant id now o rows (upsert_observed answer tenant instance_id id now o rows)
  unfolding upsert_observed
  upsert_observed-Upserted answer tenant id now o rows =
      elim (Bool-cases (str_eq o.external_id "")) [
        | inl unidentified ↦ rw unidentified (inl (no_identity, refl))
        | inr identified ↦
            rw identified
              (elim (Bool-cases (exists (has_identity instance_id o.external_id) rows)) [
                | inl known ↦ rw known (by_answer answer _ (λ e. inl (refl, e)))
                | inr new ↦ rw new (by_answer answer _ (λ e. inr (refl, e)))
              ])
      ]
    where
      by_answer :
          {T : Type 0} (answer : Option String) (r : List Backup × Bool)
          → (written answer r ≡ inr r → T)
          → ((why : String) × (written answer r ≡ inl why)) ⊎ T
      by_answer none r go = inr (go refl)
      by_answer (some why) r go = inl (why, refl)

  module _ (db : UpsertAnswers) (tenant now : ℕ) where
    by_cases :
        (o : ObservedBackup) (p : Poll)
        → Upserted tenant
            (db.new_id o)
            now
            o
            p.rows
            (upsert_observed (db.upsert_error o) tenant instance_id (db.new_id o) now o p.rows)
    by_cases o p = upsert_observed-Upserted (db.upsert_error o) tenant (db.new_id o) now o p.rows

    -- What is known stays known.
    record_keeps-Known :
        (o : ObservedBackup) (p : Poll) (e : ObservedBackup)
        → Known p.rows e
        → Known (observe_record db tenant instance_id now o p).rows e
    unfolding observe_record
    record_keeps-Known o p e known = elim (by_cases o p) [
      | inl (why, r) ↦ rw r known
      | inr (inl (old, r)) ↦ rw r (
          exists-update (has_identity instance_id e.external_id) (is_revised instance_id o)
            (revise now o) (λ b. refl) p.rows
          ∙ known)
      | inr (inr (new, r)) ↦
          rw r (exists-more (has_identity instance_id e.external_id) p.rows _ known)
    ]

    -- What was read without an error is known.
    record_learns-Known :
        (o : ObservedBackup) (p : Poll)
        → is_some (observe_record db tenant instance_id now o p).error ≡ false
        → Known (observe_record db tenant instance_id now o p).rows o
    unfolding observe_record
    record_learns-Known o p = elim (by_cases o p) [
      | inl (why, r) ↦ rw r (λ fine. absurd (cc))
      | inr (inl (old, r)) ↦ rw r (λ fine.
          exists-update (has_identity instance_id o.external_id) (is_revised instance_id o)
            (revise now o) (λ b. refl) p.rows
          ∙ old)
      | inr (inr (new, r)) ↦ rw r (λ fine.
          exists-last (has_identity instance_id o.external_id) p.rows _ (
            let same : str_eq o.external_id o.external_id ≡ true = (eq_iff _ _).1 refl in
            ground (arith, same)))
    ]

    -- What is known is not discovered.
    record_adds_nothing :
        (o : ObservedBackup) (p : Poll)
        → Known p.rows o
        → (observe_record db tenant instance_id now o p).result.discovered ≡ p.result.discovered
    unfolding observe_record
    record_adds_nothing o p known = elim (by_cases o p) [
      | inl (why, r) ↦ rw r refl
      | inr (inl (old, r)) ↦ rw r refl
      | inr (inr (new, r)) ↦ absurd (ground arith)
    ]

    page_keeps-Known :
        (os : List ObservedBackup) (p : Poll) (e : ObservedBackup)
        → Known p.rows e
        → Known (observe_page db tenant instance_id now os p).rows e
    unfolding observe_page
    page_keeps-Known [] p e known = known
    page_keeps-Known (o ∷ os) p e known =
        let p' = observe_record db tenant instance_id now o p in
        let known' = record_keeps-Known o p e known in
        elim (Bool-cases (is_some p'.error)) [
          | inl ended ↦ rw ended known'
          | inr goes_on ↦ rw goes_on (page_keeps-Known os p' e known')
        ]

    page_learns-Known :
        (os : List ObservedBackup) (p : Poll)
        → is_some (observe_page db tenant instance_id now os p).error ≡ false
        → All (Known (observe_page db tenant instance_id now os p).rows) os
    unfolding observe_page
    page_learns-Known [] p = λ fine. tt
    page_learns-Known (o ∷ os) p =
        let p' = observe_record db tenant instance_id now o p in
        elim (Bool-cases (is_some p'.error)) [
          | inl ended ↦
              let is : observe_page db tenant instance_id now (o ∷ os) p ≡ p' = rw ended refl in
              λ fine. absurd (failed_fine p' ended (ap (λ q. is_some q.error) (sym is) ∙ fine))
          | inr goes_on ↦
              let is : observe_page db tenant instance_id now (o ∷ os) p
                  ≡ observe_page db tenant instance_id now os p' =
                rw goes_on refl in
              subst (λ q. is_some q.error ≡ false → All (Known q.rows) (o ∷ os)) (sym is)
                (λ fine. (
                  page_keeps-Known os p' o (record_learns-Known o p goes_on),
                  page_learns-Known os p' fine,
                ))
        ]
      where
        failed_fine : (q : Poll) → is_some q.error ≡ true → is_some q.error ≡ false → ⊥
        failed_fine q ended fine = absurd (ground arith)

    page_adds_nothing :
        (os : List ObservedBackup) (p : Poll)
        → All (Known p.rows) os
        → (observe_page db tenant instance_id now os p).result.discovered ≡ p.result.discovered
    unfolding observe_page
    page_adds_nothing [] p known = refl
    page_adds_nothing (o ∷ os) p known =
        let p' = observe_record db tenant instance_id now o p in
        let same = record_adds_nothing o p known.0 in
        elim (Bool-cases (is_some p'.error)) [
          | inl ended ↦ rw ended same
          | inr goes_on ↦
              rw goes_on
                (page_adds_nothing os p' (All-map (record_keeps-Known o p) os known.1) ∙ same)
        ]

    pages_keep-Known :
        (n : ℕ) (answers : List (RpcError ⊎ Page)) (p : Poll) (e : ObservedBackup)
        → Known p.rows e
        → Known (observe_pages db tenant instance_id now n answers p).rows e
    unfolding observe_pages
    pages_keep-Known zero answers p e known = known
    pages_keep-Known (suc n) [] p e known = known
    pages_keep-Known (suc n) (inl why ∷ answers) p e known = known
    pages_keep-Known (suc n) (inr page ∷ answers) p e known =
        let p' = observe_page db tenant instance_id now page.backups p in
        let known' = page_keeps-Known page.backups p e known in
        elim (Bool-cases (is_some p'.error || not page.has_next)) [
          | inl ended ↦ rw ended known'
          | inr goes_on ↦ rw goes_on (pages_keep-Known n answers p' e known')
        ]

    pages-Covered :
        (n : ℕ) (answers : List (RpcError ⊎ Page)) (p : Poll)
        → is_some (observe_pages db tenant instance_id now n answers p).error ≡ false
        → Covered n answers (observe_pages db tenant instance_id now n answers p).rows
    unfolding observe_pages
    pages-Covered zero answers p = λ fine. tt
    pages-Covered (suc n) [] p = λ fine. tt
    pages-Covered (suc n) (inl why ∷ answers) p = λ fine. tt
    pages-Covered (suc n) (inr page ∷ answers) p =
        let p' = observe_page db tenant instance_id now page.backups p in
        elim (Bool-cases (is_some p'.error || not page.has_next)) [
          | inl ended ↦
              rw ended
                (λ fine. (page_learns-Known page.backups p fine, λ more. absurd (ground arith)))
          | inr goes_on ↦ rw goes_on (λ fine. (
            All-map (pages_keep-Known n answers p') page.backups
                (page_learns-Known page.backups p (ground arith)),
            λ more. pages-Covered n answers p' fine,
          ))
        ]

    pages_add_nothing :
        (n : ℕ) (answers : List (RpcError ⊎ Page)) (p : Poll)
        → Covered n answers p.rows
        → (observe_pages db tenant instance_id now n answers p).result.discovered
          ≡ p.result.discovered
    unfolding observe_pages
    pages_add_nothing zero answers p covered = refl
    pages_add_nothing (suc n) [] p covered = refl
    pages_add_nothing (suc n) (inl why ∷ answers) p covered = refl
    pages_add_nothing (suc n) (inr page ∷ answers) p covered =
        let p' = observe_page db tenant instance_id now page.backups p in
        let same = page_adds_nothing page.backups p covered.0 in
        elim (Bool-cases (is_some p'.error || not page.has_next)) [
          | inl ended ↦ rw ended same
          | inr goes_on ↦ rw goes_on (
              pages_add_nothing n answers p' (
                Covered-keeps n answers p.rows p'.rows (page_keeps-Known page.backups p)
                  (covered.1 (ground arith)))
              ∙ same)
        ]

-- A poll of an instance that meets no error leaves nothing to discover: another one that is answered
-- with the same pages, at another time and whatever the database answers to it, counts no record
-- as new.
pub repeated_poll_discovers_nothing :
    (instance_id tenant now later : ℕ) (db db' : UpsertAnswers) (answers : List (RpcError ⊎ Page))
    (rows : List Backup)
    → is_some (observe_backup_history db tenant instance_id now answers rows).error ≡ false
    → let after = (observe_backup_history db tenant instance_id now answers rows).rows in
      (observe_backup_history db' tenant instance_id later answers after).result.discovered ≡ 0
unfolding observe_backup_history
repeated_poll_discovers_nothing instance_id tenant now later db db' answers rows fine =
    pages_add_nothing instance_id db' tenant later 20 answers _
      (pages-Covered instance_id db tenant now 20 answers _ fine)
