-- ===== src/Alerts/Evaluate/Deduplicated.antt =====
-- One active alert for each fingerprint.
use fleetward.Base.{
  ℕ, ◌+◌, ◌≤◌, ◌≡◌, refl, sym, subst, ◌⊎◌, inl, inr, true, false, List, [], ◌∷◌, ◌++◌, arith,
  Bool-cases, exists, affected,
}
use fleetward.Alerts.Vocabulary.{Fingerprint, AlertState, is_open}
use fleetward.Alerts.Vocabulary.Names.{is_fingerprint→eq}
use fleetward.Alerts.Evaluate.{Alert, is_active}
use fleetward.Alerts.Evaluate.History.{History, here, next}
use fleetward.Alerts.Evaluate.Evolution.{state_number, Follows, Each, Evolves, Write-Evolves}

-- What the partial unique index says.
abbrev pub IsDeduplicated : List Alert → Type 0
IsDeduplicated alerts = (tenant : ℕ) (f : Fingerprint) → affected (is_active tenant f) alerts ≤ 1

open_before :
    (s t : AlertState) → state_number s ≤ state_number t → is_open t ≡ true → is_open s ≡ true
open_before AlertState.firing t h e = refl
open_before AlertState.acknowledged t h e = refl
open_before AlertState.resolved AlertState.resolved h e = e
open_before AlertState.resolved AlertState.firing h e = absurd (omega arith)
open_before AlertState.resolved AlertState.acknowledged h e = absurd (omega arith)

module _ (tenant : ℕ) (f : Fingerprint) where
  active_before :
      (a a' : Alert) → Follows a a' → is_active tenant f a' ≡ true → is_active tenant f a ≡ true
  unfolding is_active
  active_before a a' follows e = ground (
    arith,
    follows.same_tenant,
    follows.same_fingerprint,
    open_before a.state a'.state follows.forward,
  )

  Each-le :
      (xs ys : List Alert)
      → Each xs ys
      → affected (is_active tenant f) ys ≤ affected (is_active tenant f) xs
  unfolding affected
  Each-le [] [] h = omega arith
  Each-le [] (y ∷ ys) h = absurd h
  Each-le (x ∷ xs) [] h = absurd h
  Each-le (x ∷ xs) (y ∷ ys) h = ground (arith, active_before x y h.0, Each-le xs ys h.1)

  affected-append :
      (xs ys : List Alert)
      → affected (is_active tenant f) (xs ++ ys)
        ≡ affected (is_active tenant f) xs + affected (is_active tenant f) ys
  unfolding affected
  affected-append [] ys = omega arith
  affected-append (x ∷ xs) ys = ground (arith, affected-append xs ys)

  none-affected :
      (xs : List Alert)
      → exists (is_active tenant f) xs ≡ false
      → affected (is_active tenant f) xs ≡ 0
  unfolding affected
  none-affected [] e = refl
  none-affected (x ∷ xs) e = ground (arith, none-affected xs)

  -- A new alert that is active under a fingerprint is the first one.
  active_new :
      (n : Alert) → is_active tenant f n ≡ true → (n.tenant_id ≡ tenant) × (n.fingerprint ≡ f)
  unfolding is_active
  active_new n e = (ground arith, is_fingerprint→eq n.fingerprint f (ground arith))

Evolves-IsDeduplicated :
    (xs ys : List Alert) → Evolves xs ys → IsDeduplicated xs → IsDeduplicated ys
unfolding affected
Evolves-IsDeduplicated xs ys (inl each) d tenant f =
    omega (arith, Each-le tenant f xs ys each, d tenant f)
Evolves-IsDeduplicated xs ys (inr (n, added, new)) d tenant f =
    subst (λ zs. affected (is_active tenant f) zs ≤ 1) (sym added)
      (one (affected-append tenant f xs (n ∷ [])) (Bool-cases (is_active tenant f n)))
  where
    alone : affected (is_active tenant f) (n ∷ []) ≤ 1
    alone = ground arith

    one :
        affected (is_active tenant f) (xs ++ n ∷ [])
          ≡ affected (is_active tenant f) xs + affected (is_active tenant f) (n ∷ [])
        → (is_active tenant f n ≡ true) ⊎ (is_active tenant f n ≡ false)
        → affected (is_active tenant f) (xs ++ n ∷ []) ≤ 1
    one sum (inl active) =
        let (t, g) = active_new tenant f n active in
        let unseen : exists (is_active tenant f) xs ≡ false =
          subst (λ u. exists (is_active u f) xs ≡ false) t
            (subst (λ h. exists (is_active n.tenant_id h) xs ≡ false) g new) in
        omega (arith, sum, alone, none-affected tenant f xs unseen)
    one sum (inr inactive) =
        let unmoved : affected (is_active tenant f) (n ∷ []) ≡ 0 = ground arith in
        omega (arith, sum, unmoved, d tenant f)

-- Through whatever passes, acknowledgements and deleted rules, by any number of control planes in
-- any order, a tenant has at most one alert that is not resolved for each fingerprint.
pub History-IsDeduplicated :
    (alerts alerts' : List Alert)
    → IsDeduplicated alerts
    → History alerts alerts'
    → IsDeduplicated alerts'
History-IsDeduplicated alerts alerts' d here = d
History-IsDeduplicated alerts alerts' d (next {alerts = between} h w) =
    Evolves-IsDeduplicated between alerts' (Write-Evolves w)
      (History-IsDeduplicated alerts between d h)
