-- ===== src/Alerts/Evaluate/Sticky.antt =====
-- What no history of statements does to an alert.
use fleetward.Base.{
  ℕ, ◌≡◌, ◌∙◌, inl, inr, true, false, List, [], ◌∷◌, Option, some, arith, subst, ap, ◌==◌,
  Bool-cases, row, row-append,
}
use fleetward.Alerts.Evaluate.{Alert}
use fleetward.Alerts.Evaluate.History.{History, here, next}
use fleetward.Alerts.Evaluate.Evolution.{
  Follows, Follows-refl, Follows-trans, Each, Evolves, Write-Evolves,
}

abbrev alert_row : ℕ → List Alert → Option Alert
alert_row = row (λ a. a.id)

-- The alert is still there, and has only gone forward.
abbrev pub Continues : ℕ → Alert → List Alert → Type 0
Continues id a alerts = (a' : Alert) × (row (λ b. b.id) id alerts ≡ some a') × Follows a a'

module _ (id : ℕ) where
  Each-Continues :
      (xs ys : List Alert) {a : Alert} → Each xs ys → alert_row id xs ≡ some a → Continues id a ys
  unfolding row
  Each-Continues [] ys h e = absurd (cc)
  Each-Continues (x ∷ xs) [] h e = absurd h
  Each-Continues (x ∷ xs) (y ∷ ys) {a} (same, h) e = elim (Bool-cases (x.id == id)) [
    | inl hit ↦
        let hit' : (y.id == id) ≡ true = rw same.same_id hit in
        let found : x ≡ a = ground arith in (y, rw hit', subst (λ b. Follows b y) found same)
    | inr miss ↦
        let miss' : (y.id == id) ≡ false = rw same.same_id miss in
        rw miss' (Each-Continues xs ys {a = a} h (ground arith))
  ]

  Evolves-Continues :
      (xs ys : List Alert) {a : Alert}
      → Evolves xs ys
      → alert_row id xs ≡ some a
      → Continues id a ys
  Evolves-Continues xs ys (inl each) e = Each-Continues xs ys each e
  Evolves-Continues xs ys {a} (inr (n, added, new)) e =
      (a, ap (alert_row id) added ∙ row-append (λ b. b.id) id xs (n ∷ []) e, Follows-refl a)

  -- Through whatever passes, acknowledgements and deleted rules, by any number of control planes in
  -- any order, an alert stays in the table under its fingerprint and only goes forward, from firing
  -- over acknowledged to resolved: a condition that is still true does not make an acknowledged
  -- alert fire again, and a resolved one stays resolved and keeps the time at which it was.
  pub History-goes_forward :
      (alerts alerts' : List Alert) (a : Alert)
      → row (λ b. b.id) id alerts ≡ some a
      → History alerts alerts'
      → Continues id a alerts'
  History-goes_forward alerts alerts' a e here = (a, e, Follows-refl a)
  History-goes_forward alerts alerts' a e (next {alerts = between} h w) =
      let (b, found, follows) = History-goes_forward alerts between a e h in
      let (c, found', follows') = Evolves-Continues between alerts' (Write-Evolves w) found in
      (c, found', Follows-trans follows follows')
