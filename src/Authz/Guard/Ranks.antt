-- ===== src/Authz/Guard/Ranks.antt =====
-- The best rank among grants, by the grants that have it.
use fleetward.Base.{
  ℕ, ◌≡◌, refl, inl, inr, Bool, ◌&&◌, ◌||◌, List, [], ◌∷◌, arith, leb, if◌then◌else◌, Bool-cases, ℤ,
  pos, negsuc, exists,
}
use fleetward.Authz.Principal.{Grant}
use fleetward.Authz.Guard.{exceeds, suffices, greater, best_rank_from, best_rank}

-- Some grant matches and has the rank.
abbrev pub grants_rank : ℕ → (Grant → Bool) → List Grant → Bool
grants_rank required matching = exists λ g. matching g && leb required g.rank

suffices-step :
    (best : ℤ) (hit : Bool) (rank required : ℕ)
    → suffices (if hit && exceeds rank best then pos rank else best) required
      ≡ (suffices best required || hit && leb required rank)
suffices-step (pos b) hit rank required = ground arith
suffices-step (negsuc n) hit rank required = ground arith

suffices-best_rank_from :
    (best : ℤ) (matching : Grant → Bool) (gs : List Grant) (required : ℕ)
    → suffices (best_rank_from best matching gs) required
      ≡ (suffices best required || grants_rank required matching gs)
unfolding best_rank_from
suffices-best_rank_from best matching [] required = ground arith
suffices-best_rank_from best matching (g ∷ gs) required =
    elim (Bool-cases (matching g && exceeds g.rank best)) [
      | inl higher ↦ rw higher (
          ground (
            arith,
            suffices-best_rank_from (pos g.rank) matching gs required,
            suffices-step best (matching g) g.rank required,
          ))
      | inr same ↦ rw same (
          ground (
            arith,
            suffices-best_rank_from best matching gs required,
            suffices-step best (matching g) g.rank required,
          ))
    ]

pub suffices-best_rank :
    (matching : Grant → Bool) (gs : List Grant) (required : ℕ)
    → suffices (best_rank matching gs) required ≡ grants_rank required matching gs
suffices-best_rank matching gs required = suffices-best_rank_from (negsuc 0) matching gs required

pub suffices-greater :
    (a b : ℤ) (required : ℕ)
    → suffices (greater a b) required ≡ (suffices a required || suffices b required)
suffices-greater (pos r) (pos b) required = ground arith
suffices-greater (pos r) (negsuc n) required = ground arith
suffices-greater (negsuc n) (pos b) required = ground arith
suffices-greater (negsuc n) (negsuc m) required = refl
