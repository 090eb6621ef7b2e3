-- ===== src/Base/Tables.antt =====
-- A table is the list of its rows. These are the statements the services send: an UPDATE with its
-- WHERE clause and its count of rows affected, and a SELECT of one row by its key.
use Prim.Native.Nat.{◌+◌, ℕ, suc}
use mathlib.Core.Path.{◌≡◌, refl}
use mathlib.Core.Bool.{Bool, true, false, ◌||◌}
use mathlib.Core.Option
use mathlib.Core.Option.{Option, none, some}
use mathlib.Core.List.{◌++◌, List, [], ◌∷◌}
use native.Mathlib.Omega.{arith}
use mathlib.Core.Logic.{◌≢◌, inl, inr}
use fleetward.Base.Tests.{Bool-cases, if◌then◌else◌, ◌==◌}

module _ {ℓ} {A : Type ℓ} where
  abbrev pub length : List A → ℕ
  length [] = 0
  length (x ∷ xs) = suc (length xs)

  -- A predicate on every row.
  abbrev pub All {κ} : (A → Type κ) → List A → Type κ
  All P [] = Unit
  All P (x ∷ xs) = P x × All P xs

  abbrev pub exists : (A → Bool) → List A → Bool
  exists p [] = false
  exists p (x ∷ xs) = p x || exists p xs

  abbrev pub where_rows : (A → Bool) → List A → List A
  where_rows p [] = []
  where_rows p (x ∷ xs) = if p x then x ∷ where_rows p xs else where_rows p xs

  -- UPDATE … SET f WHERE p.
  unfoldable pub update : (A → Bool) → (A → A) → List A → List A
  update p f [] = []
  update p f (x ∷ xs) = (if p x then f x else x) ∷ update p f xs

  -- The rows an UPDATE affects.
  unfoldable pub affected : (A → Bool) → List A → ℕ
  affected p [] = 0
  affected p (x ∷ xs) = if p x then suc (affected p xs) else affected p xs

  pub update-All {κ} :
      (P : A → Type κ) (p : A → Bool) (f : A → A)
      → ((x : A) → P x → p x ≡ true → P (f x))
      → (xs : List A) → All P xs
      → All P (update p f xs)
  unfolding update
  update-All P p f keep [] h = h
  update-All P p f keep (x ∷ xs) h = (ground (arith, keep x h.0), update-All P p f keep xs h.1)

  pub update-none :
      (p : A → Bool) (f : A → A) (xs : List A) → affected p xs ≡ 0 → update p f xs ≡ xs
  unfolding update affected
  update-none p f [] h = refl
  update-none p f (x ∷ xs) h = ground (arith, update-none p f xs)

  module _ (key : A → ℕ) where
    -- SELECT … WHERE id = $1, on the primary key.
    unfoldable pub row : ℕ → List A → Option A
    row id [] = none
    row id (x ∷ xs) = if key x == id then some x else row id xs

    -- The primary key is unique.
    abbrev pub IsKeyed : List A → Type ℓ
    IsKeyed [] = Unit {ℓ}
    IsKeyed (x ∷ xs) = (row (key x) xs ≡ none) × IsKeyed xs

    module _ (p : A → Bool) (f : A → A) (same : (x : A) → key (f x) ≡ key x) where
      -- An update that leaves the key alone is seen by each key as an update of its own row.
      pub row-update :
          (id : ℕ) (xs : List A)
          → row id (update p f xs) ≡ Option.map (λ x. if p x then f x else x) (row id xs)
      unfolding update row
      row-update id [] = refl
      row-update id (x ∷ xs) = ground (arith, same x, row-update id xs)

      pub IsKeyed-update : (xs : List A) → IsKeyed xs → IsKeyed (update p f xs)
      unfolding update
      IsKeyed-update [] h = tt
      IsKeyed-update (x ∷ xs) h =
          (ground (arith, same x, row-update (key x) xs), IsKeyed-update xs h.1)

module _ {ℓ} {A : Type ℓ} where
  pub All-map {κ κ'} :
      {P : A → Type κ} {Q : A → Type κ'}
      → ((x : A) → P x → Q x)
      → (xs : List A) → All P xs
      → All Q xs
  All-map f [] h = tt
  All-map f (x ∷ xs) h = (f x h.0, All-map f xs h.1)

  module _ (key : A → ℕ) where
    pub row-none :
        (id : ℕ) (xs : List A) → row key id xs ≡ none → All (λ x. (key x == id) ≡ false) xs
    unfolding row
    row-none id [] h = tt
    row-none id (x ∷ xs) h = (ground arith, row-none id xs (ground arith))

    -- By a unique key one row at most is selected.
    pub row-keyed :
        (id : ℕ) (xs : List A) {a : A}
        → IsKeyed key xs
        → row key id xs ≡ some a
        → All (λ x. (key x == id) ≡ true → x ≡ a) xs
    unfolding row
    row-keyed id [] k e = tt
    row-keyed id (x ∷ xs) k e = elim (Bool-cases (key x == id)) [
      | inl hit ↦ (ground arith, All-map (λ y miss hit'. ground arith) xs (row-none (key x) xs k.0))
      | inr miss ↦ (ground arith, row-keyed id xs k.1 (ground arith))
    ]

    pub row-key : (id : ℕ) (xs : List A) {a : A} → row key id xs ≡ some a → key a ≡ id
    unfolding row
    row-key id [] e = cc
    row-key id (x ∷ xs) {a} e = ground (arith, row-key id xs {a = a})

  pub All-update {κ} :
      (Q : A → Type κ) (p : A → Bool) (f : A → A) (xs : List A)
      → All (λ x. p x ≡ true → Q x → Q (f x)) xs
      → All Q xs
      → All Q (update p f xs)
  unfolding update
  All-update Q p f [] h q = tt
  All-update Q p f (x ∷ xs) h q = (ground (arith, h.0), All-update Q p f xs h.1 q.1)

  pub All-append {κ} : (Q : A → Type κ) (xs ys : List A) → All Q xs → All Q ys → All Q (xs ++ ys)
  All-append Q [] ys hx hy = hy
  All-append Q (x ∷ xs) ys hx hy = (hx.0, All-append Q xs ys hx.1 hy)

  pub length-append : (xs ys : List A) → length (xs ++ ys) ≡ length xs + length ys
  length-append [] ys = omega arith
  length-append (x ∷ xs) ys = omega (arith, length-append xs ys)

  pub All-true {κ} : (Q : A → Type κ) → ((x : A) → Q x) → (xs : List A) → All Q xs
  All-true Q h [] = tt
  All-true Q h (x ∷ xs) = (h x, All-true Q h xs)

  module _ (key : A → ℕ) (p : A → Bool) (f : A → A) (same : (x : A) → key (f x) ≡ key x) where
    -- The row of a key, before and after an update.
    pub row-update-some :
        (id : ℕ) (xs : List A) {a : A}
        → row key id xs ≡ some a
        → row key id (update p f xs) ≡ some (if p a then f a else a)
    row-update-some id xs e = rw (row-update key p f same id xs, e)

    pub row-update-none :
        (id : ℕ) (xs : List A) → row key id xs ≡ none → row key id (update p f xs) ≡ none
    row-update-none id xs e = rw (row-update key p f same id xs, e)

    -- A row whose key the WHERE clause does not name stays as it was.
    pub row-update_ne :
        (id : ℕ)
        → ((x : A) → p x ≡ true → key x ≢ id)
        → (xs : List A) → row key id (update p f xs) ≡ row key id xs
    unfolding update row
    row-update_ne id apart [] = refl
    row-update_ne id apart (x ∷ xs) = ground (arith, apart x, same x, row-update_ne id apart xs)

  -- An UPDATE that selects by a unique key affects one row, or none.
  module _ (key : A → ℕ) (id : ℕ) (p : A → Bool) where
    pub affected-row-none :
        (xs : List A)
        → ((x : A) → p x ≡ true → key x ≡ id)
        → row key id xs ≡ none
        → affected p xs ≡ 0
    unfolding affected row
    affected-row-none [] only e = refl
    affected-row-none (x ∷ xs) only e = ground (arith, only x, affected-row-none xs only)

    pub affected-row :
        (xs : List A) {a : A}
        → ((x : A) → p x ≡ true → key x ≡ id)
        → IsKeyed key xs
        → row key id xs ≡ some a
        → affected p xs ≡ (if p a then 1 else 0)
    unfolding affected row
    affected-row [] only k e = cc
    affected-row (x ∷ xs) {a} only k e = elim (Bool-cases (key x == id)) [
      | inl hit ↦ ground (arith, affected-row-none xs only)
      | inr miss ↦ ground (arith, only x, affected-row xs {a = a} only k.1)
    ]
