-- ===== src/Base/Sorted.antt =====
-- ORDER BY and LIMIT.
use Prim.Native.Nat.{ℕ, zero, suc}
use mathlib.Core.Path.{◌≡◌}
use mathlib.Core.Logic.{inl, inr}
use mathlib.Core.Bool.{Bool, true}
use mathlib.Core.List.{List, [], ◌∷◌}
use fleetward.Base.Tests.{Bool-cases, if◌then◌else◌, leb}
use fleetward.Base.Tables.{All, where_rows}

module _ {ℓ} {A : Type ℓ} where
  -- LIMIT.
  abbrev pub take : ℕ → List A → List A
  take zero xs = []
  take (suc n) [] = []
  take (suc n) (x ∷ xs) = x ∷ take n xs

  module _ (key : A → ℕ) where
    abbrev pub insert_on : A → List A → List A
    insert_on x [] = x ∷ []
    insert_on x (y ∷ ys) = if leb (key x) (key y) then x ∷ y ∷ ys else y ∷ insert_on x ys

    -- ORDER BY.
    unfoldable pub sort_on : List A → List A
    sort_on [] = []
    sort_on (x ∷ xs) = insert_on x (sort_on xs)

    All-insert_on {κ} :
        (Q : A → Type κ) (x : A) (xs : List A) → Q x → All Q xs → All Q (insert_on x xs)
    All-insert_on Q x [] q h = (q, tt)
    All-insert_on Q x (y ∷ ys) q h = elim (Bool-cases (leb (key x) (key y))) [
      | inl first ↦ rw first (q, h)
      | inr later ↦ rw later (h.0, All-insert_on Q x ys q h.1)
    ]

    pub All-sort_on {κ} : (Q : A → Type κ) (xs : List A) → All Q xs → All Q (sort_on xs)
    unfolding sort_on
    All-sort_on Q [] h = tt
    All-sort_on Q (x ∷ xs) h = All-insert_on Q x (sort_on xs) h.0 (All-sort_on Q xs h.1)

  pub All-take {κ} : (Q : A → Type κ) (n : ℕ) (xs : List A) → All Q xs → All Q (take n xs)
  All-take Q zero xs h = tt
  All-take Q (suc n) [] h = tt
  All-take Q (suc n) (x ∷ xs) h = (h.0, All-take Q n xs h.1)

  -- The rows that a SELECT returns satisfy its WHERE clause.
  pub All-where_rows {κ} :
      (Q : A → Type κ) (p : A → Bool) (xs : List A)
      → All Q xs
      → All (λ x. (p x ≡ true) × Q x) (where_rows p xs)
  All-where_rows Q p [] h = tt
  All-where_rows Q p (x ∷ xs) h = elim (Bool-cases (p x)) [
    | inl hit ↦ rw hit ((hit, h.0), All-where_rows Q p xs h.1)
    | inr miss ↦ rw miss (All-where_rows Q p xs h.1)
  ]
