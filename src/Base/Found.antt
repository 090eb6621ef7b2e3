-- ===== src/Base/Found.antt =====
-- The row of a key in a table that an INSERT or an UPDATE has left.
use Prim.Native.Nat.{ℕ}
use mathlib.Core.Path.{◌≡◌, refl, sym, ◌∙◌}
use mathlib.Core.Bool.{Bool}
use mathlib.Core.Option.{Option, none, some}
use mathlib.Core.List.{◌++◌, List, [], ◌∷◌}
use native.Mathlib.Omega.{arith}
use mathlib.Core.Logic.{◌⊎◌, inl, inr}
use fleetward.Base.Tests.{Bool-cases, Option-cases, if◌then◌else◌, ◌==◌}
use fleetward.Base.Tables.{update, row, row-update, IsKeyed}

module _ {ℓ} {A : Type ℓ} (key : A → ℕ) where
  pub row-append :
      (id : ℕ) (xs ys : List A) {a : A} → row key id xs ≡ some a → row key id (xs ++ ys) ≡ some a
  unfolding row
  row-append id [] ys e = absurd (cc)
  row-append id (x ∷ xs) ys {a} e = ground (arith, row-append id xs ys {a = a})

  pub row-append-none :
      (id : ℕ) (xs ys : List A) → row key id xs ≡ none → row key id (xs ++ ys) ≡ row key id ys
  unfolding row
  row-append-none id [] ys e = refl
  row-append-none id (x ∷ xs) ys e = ground (arith, row-append-none id xs ys)

  -- A row of a table that has one more is that one or an old one.
  pub row-inserted :
      (id : ℕ) (xs : List A) (n : A) {a : A}
      → row key id (xs ++ n ∷ []) ≡ some a
      → (row key id xs ≡ some a) ⊎ (n ≡ a)
  unfolding row
  row-inserted id [] n {a} e = elim (Bool-cases (key n == id)) [
    | inl hit ↦ inr (ground arith)
    | inr miss ↦ absurd (ground arith)
  ]
  row-inserted id (x ∷ xs) n {a} e = elim (Bool-cases (key x == id)) [
    | inl hit ↦ inl (ground arith)
    | inr miss ↦ elim (row-inserted id xs n {a = a} (ground arith)) [
      | inl old ↦ inl (ground arith)
      | inr new ↦ inr new
    ]
  ]

  -- An inserted row whose key is free keeps keys unique.
  pub IsKeyed-inserted :
      (xs : List A) (n : A)
      → row key (key n) xs ≡ none
      → IsKeyed key xs
      → IsKeyed key (xs ++ n ∷ [])
  unfolding row
  IsKeyed-inserted [] n free k = (refl, tt)
  IsKeyed-inserted (x ∷ xs) n free k = (
    elim (Bool-cases (key x == key n)) [
      | inl taken ↦ absurd (ground arith)
      | inr other ↦ row-append-none (key x) xs (n ∷ []) k.0 ∙ ground arith
    ],
    IsKeyed-inserted xs n (ground arith) k.1,
  )

  -- A row of an updated table is an old one, or its update.
  pub row-updated :
      (p : A → Bool) (f : A → A) (same : (x : A) → key (f x) ≡ key x) (id : ℕ) (xs : List A) {a : A}
      → row key id (update p f xs) ≡ some a
      → (x : A) × (row key id xs ≡ some x) × ((if p x then f x else x) ≡ a)
  row-updated p f same id xs {a} e = elim (Option-cases (row key id xs)) [
    | inl missing ↦ absurd (apart (sym (row-update key p f same id xs ∙ rw missing refl) ∙ e))
    | inr (x, found) ↦ (x, found, inside (sym (row-update key p f same id xs ∙ rw found refl) ∙ e))
  ]
    where
      apart : ◌≡◌ {A = Option A} none (some a) → ⊥
      apart h = absurd (cc)

      inside : {x y : A} → ◌≡◌ {A = Option A} (some x) (some y) → x ≡ y
      inside h = cc
