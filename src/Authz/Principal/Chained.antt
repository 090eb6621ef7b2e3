-- ===== src/Authz/Principal/Chained.antt =====
-- The chain of authenticators.
use fleetward.Base.{◌≡◌, refl, Bool, true, false, List, [], ◌∷◌, ◌++◌, All}
use fleetward.Authz.Principal.{Authentication, recognised, no_credential, rejected, authenticate}

-- Whether a link passes the request on.
abbrev pub passes_on : Authentication → Bool
passes_on no_credential = true
passes_on _ = false

-- Behind links that all pass the request on, the first one that does not decides, whatever stands
-- behind it: a credential that it rejects is not offered to any later link.
pub first_answer_decides :
    (before after : List Authentication) (answer : Authentication)
    → All (λ a. passes_on a ≡ true) before
    → passes_on answer ≡ false
    → authenticate (before ++ (answer ∷ after)) ≡ answer
unfolding authenticate
first_answer_decides [] after (recognised p) all h = refl
first_answer_decides [] after no_credential all h = absurd (cc)
first_answer_decides [] after (rejected why) all h = refl
first_answer_decides (recognised p ∷ before) after answer all h = absurd (cc)
first_answer_decides (no_credential ∷ before) after answer all h =
    first_answer_decides before after answer all.1 h
first_answer_decides (rejected why ∷ before) after answer all h = absurd (cc)
