-- ===== src/Alerts/Rules/Loudest.antt =====
-- Which rule decides.
use fleetward.Base.{
  ℕ, ◌<◌, ◌≤◌, ◌≡◌, refl, sym, subst, ap, ◌⊎◌, inl, inr, true, false, ◌&&◌, List, [], ◌∷◌, ◌++◌,
  Option, none, some, arith, Bool-cases, All, All-map,
}
use fleetward.Alerts.Vocabulary.{Severity, severity_rank_of}
use fleetward.Alerts.Rules.{Rule, Condition, is_about, is_louder, match_from, match_rule}

-- The rule stands in the list, is about the condition, is louder than every such rule that is read
-- before it and at least as loud as every such rule that is read after it.
abbrev pub IsFirstLoudest : List Rule → Condition → Rule → Type 0
IsFirstLoudest rules c r =
    (before : List Rule) × (later : List Rule) × (rules ≡ before ++ r ∷ later)
    × (is_about r c ≡ true)
    × All (λ q. is_about q c ≡ true → severity_rank_of q.severity < severity_rank_of r.severity)
        before
    × All (λ q. is_about q c ≡ true → severity_rank_of q.severity ≤ severity_rank_of r.severity)
        later

-- The rule is the first of the loudest about the condition; or there are none.
abbrev pub Decides : List Rule → Condition → Option Rule → Type 0
Decides rules c none = All (λ q. is_about q c ≡ false) rules
Decides rules c (some r) = IsFirstLoudest rules c r

rank-positive : (s : Severity) → 1 ≤ severity_rank_of s
rank-positive Severity.info = omega arith
rank-positive _ = omega arith

-- The rank of the rule that decides, or 0.
abbrev loudness : Option Rule → ℕ
loudness none = 0
loudness (some r) = severity_rank_of r.severity

module _ (c : Condition) where
  abbrev IsBounded : ℕ → List Rule → Type 0
  IsBounded n = All (λ q. is_about q c ≡ true → severity_rank_of q.severity ≤ n)

  -- The best rule so far stays, since none of the list is louder; or a louder one takes its place.
  abbrev Follows : Option Rule → List Rule → Option Rule → Type 0
  Follows best rules result =
      ((result ≡ best) × IsBounded (loudness best) rules)
      ⊎ ((r : Rule) × (result ≡ some r)
          × (loudness best < severity_rank_of r.severity)
          × IsFirstLoudest rules c r)

  louder-lt :
      (r : Rule) (best : Option Rule)
      → is_louder r best ≡ true
      → loudness best < severity_rank_of r.severity
  louder-lt r none e = let h = rank-positive r.severity in omega arith
  louder-lt r (some b) e = ground arith

  unlouder-le :
      (r : Rule) (best : Option Rule)
      → (is_about r c && is_louder r best) ≡ false
      → is_about r c ≡ true
      → severity_rank_of r.severity ≤ loudness best
  unlouder-le r none e about = absurd (ground arith)
  unlouder-le r (some b) e about = ground arith

  taken-Follows :
      (best result : Option Rule) (r : Rule) (rs : List Rule)
      → is_about r c ≡ true
      → loudness best < severity_rank_of r.severity
      → Follows (some r) rs result
      → Follows best (r ∷ rs) result
  taken-Follows best result r rs about more (inl (e, all)) =
      inr (r, e, more, ([], rs, refl, about, tt, all))
  taken-Follows best result r rs about more
        (inr (q, e, above, (before, later, split, about_q, below, le))) =
      inr (
        q,
        e,
        omega arith,
        ((r ∷ before), later, ap (λ xs. r ∷ xs) split, about_q, ((λ _. above), below), le),
      )

  left-Follows :
      (best result : Option Rule) (r : Rule) (rs : List Rule)
      → (is_about r c ≡ true → severity_rank_of r.severity ≤ loudness best)
      → Follows best rs result
      → Follows best (r ∷ rs) result
  left-Follows best result r rs bound (inl (e, all)) = inl (e, (bound, all))
  left-Follows best result r rs bound
        (inr (q, e, above, (before, later, split, about_q, below, le))) =
      inr (
        q,
        e,
        above,
        (
          (r ∷ before),
          later,
          ap (λ xs. r ∷ xs) split,
          about_q,
          ((λ about. let h = bound about in omega arith), below),
          le,
        ),
      )

  match_from-Follows :
      (best : Option Rule) (rules : List Rule) → Follows best rules (match_from best rules c)
  unfolding match_from
  match_from-Follows best [] = inl (refl, tt)
  match_from-Follows best (r ∷ rs) = elim (Bool-cases (is_about r c && is_louder r best)) [
    | inl taken ↦ rw taken (
        taken-Follows best (match_from (some r) rs c) r rs (ground arith)
          (louder-lt r best (ground arith)) (match_from-Follows (some r) rs))
    | inr left ↦ rw left (
        left-Follows best (match_from best rs c) r rs (unlouder-le r best left)
          (match_from-Follows best rs))
  ]

-- A condition is decided by the first of the loudest rules about it, in the order in which they are
-- read: no rule about it is louder, and every one that is read before it is less loud; where no rule
-- is about it, none decides.
pub match_rule-Decides : (rules : List Rule) (c : Condition) → Decides rules c (match_rule rules c)
unfolding match_rule
match_rule-Decides rules c = conclude (match_from none rules c) (match_from-Follows c none rules)
  where
    conclude : (o : Option Rule) → Follows c none rules o → Decides rules c o
    conclude none (inl (e, all)) =
        All-map
          (λ q h. elim (Bool-cases (is_about q c)) [
            | inl about ↦ absurd (omega (arith, h about, rank-positive q.severity))
            | inr not_about ↦ not_about
          ])
          rules all
    conclude none (inr (r, e, above, rest)) = absurd (cc)
    conclude (some r) (inl (e, all)) = absurd (cc)
    conclude (some r) (inr (q, e, above, found)) =
        subst (IsFirstLoudest rules c) (ap (λ o. elim o [ none ↦ r | some x ↦ x ]) (sym e)) found
