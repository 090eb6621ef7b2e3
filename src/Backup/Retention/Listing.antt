-- ===== src/Backup/Retention/Listing.antt =====
-- What a sorted and limited selection holds: everything that was selected, if the limit allows it.
use fleetward.Base.{
  ℕ, zero, suc, ◌≤◌, ◌≡◌, refl, ap, ◌∙◌, inl, inr, Bool, true, ◌&&◌, List, [], ◌∷◌, some, arith,
  leb, ◌==◌, Bool-cases, length, All, exists, where_rows, row, take, insert_on, sort_on,
}

module _ {ℓ} {A : Type ℓ} where
  pub exists-found {κ} :
      (f : A → Bool) (Q : A → Type κ) (xs : List A)
      → All Q xs
      → exists f xs ≡ true
      → (x : A) × (f x ≡ true) × Q x
  exists-found f Q [] h e = absurd (cc)
  exists-found f Q (x ∷ xs) h e = elim (Bool-cases (f x)) [
    | inl hit ↦ (x, hit, h.0)
    | inr miss ↦ exists-found f Q xs h.1 (rw miss at e)
  ]

  pub exists-where_rows :
      (f p : A → Bool) (xs : List A)
      → exists (λ x. f x && p x) xs ≡ true
      → exists f (where_rows p xs) ≡ true
  exists-where_rows f p [] h = h
  exists-where_rows f p (x ∷ xs) h = elim (Bool-cases (p x)) [
    | inl hit ↦ rw hit (ground (arith, exists-where_rows f p xs))
    | inr miss ↦ rw miss (exists-where_rows f p xs (ground arith))
  ]

  module _ (key : A → ℕ) where
    exists-insert_on :
        (f : A → Bool) (x : A) (xs : List A)
        → exists f (x ∷ xs) ≡ true
        → exists f (insert_on key x xs) ≡ true
    exists-insert_on f x [] h = h
    exists-insert_on f x (y ∷ ys) h = elim (Bool-cases (leb (key x) (key y))) [
      | inl first ↦ rw first h
      | inr later ↦ rw later (ground (arith, exists-insert_on f x ys))
    ]

    pub exists-sort_on :
        (f : A → Bool) (xs : List A) → exists f xs ≡ true → exists f (sort_on key xs) ≡ true
    unfolding sort_on
    exists-sort_on f [] h = h
    exists-sort_on f (x ∷ xs) h =
        exists-insert_on f x (sort_on key xs) (ground (arith, exists-sort_on f xs))

    length-insert_on : (x : A) (xs : List A) → length (insert_on key x xs) ≡ suc (length xs)
    length-insert_on x [] = refl
    length-insert_on x (y ∷ ys) = elim (Bool-cases (leb (key x) (key y))) [
      | inl first ↦ rw first
      | inr later ↦ rw later (ap suc (length-insert_on x ys))
    ]

    pub length-sort_on : (xs : List A) → length (sort_on key xs) ≡ length xs
    unfolding sort_on
    length-sort_on [] = refl
    length-sort_on (x ∷ xs) = length-insert_on x (sort_on key xs) ∙ ap suc (length-sort_on xs)

  pub take_all : (n : ℕ) (xs : List A) → length xs ≤ n → take n xs ≡ xs
  take_all zero [] h = refl
  take_all zero (x ∷ xs) h = absurd (omega arith)
  take_all (suc n) [] h = refl
  take_all (suc n) (x ∷ xs) h = ap (λ ys. x ∷ ys) (take_all n xs (omega arith))

  -- The row of a key is found by any test that it passes.
  pub row-exists :
      (key : A → ℕ) (f : A → Bool) (id : ℕ) (xs : List A) {a : A}
      → row key id xs ≡ some a
      → f a ≡ true
      → exists f xs ≡ true
  unfolding row
  row-exists key f id [] here hit = absurd (cc)
  row-exists key f id (x ∷ xs) {a} here hit = elim (Bool-cases (key x == id)) [
    | inl same ↦ let e : some x ≡ some a = rw same at here in ground arith
    | inr other ↦ let e = row-exists key f id xs {a = a} (rw other at here) hit in ground arith
  ]
