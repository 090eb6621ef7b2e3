-- ===== src/Base/Exists.antt =====
-- Whether some row of a table passes a test.
use mathlib.Core.Path.{◌≡◌, refl, ap, ◌∙◌}
use mathlib.Core.Bool.{Bool, true, false, ◌&&◌, ◌||◌}
use mathlib.Core.List.{List, [], ◌∷◌, ◌++◌}
use mathlib.Core.Logic.{inl, inr}
use native.Mathlib.Omega.{arith}
use fleetward.Base.Tests.{Bool-cases}
use fleetward.Base.Tables.{exists, where_rows, All}

pub exists-and {ℓ} :
    {A : Type ℓ} (q p : A → Bool) (xs : List A)
    → exists p (where_rows q xs) ≡ exists (λ x. q x && p x) xs
exists-and q p [] = refl
exists-and q p (x ∷ xs) = elim (Bool-cases (q x)) [
  | inl hit ↦ rw hit (ap (λ b. p x || b) (exists-and q p xs))
  | inr miss ↦ rw miss (exists-and q p xs)
]

pub exists-append {ℓ} :
    {A : Type ℓ} (p : A → Bool) (xs ys : List A)
    → exists p (xs ++ ys) ≡ (exists p xs || exists p ys)
exists-append p [] ys = refl
exists-append p (x ∷ xs) ys = ground (arith, exists-append p xs ys)

pub exists-split {ℓ} :
    {A : Type ℓ} (p : A → Bool) (before : List A) (x : A) (later : List A)
    → p x ≡ true
    → exists p (before ++ x ∷ later) ≡ true
exists-split p before x later hit = exists-append p before (x ∷ later) ∙ ground arith

pub exists-false {ℓ} :
    {A : Type ℓ} (p : A → Bool) (xs : List A) → All (λ x. p x ≡ false) xs → exists p xs ≡ false
exists-false p [] h = refl
exists-false p (x ∷ xs) h = let e = exists-false p xs h.1 in ground (arith, h.0)

pub exists-ext {ℓ} :
    {A : Type ℓ} (p q : A → Bool)
    → ((x : A) → p x ≡ q x)
    → (xs : List A) → exists p xs ≡ exists q xs
exists-ext p q same [] = refl
exists-ext p q same (x ∷ xs) = ground (arith, same x, exists-ext p q same xs)

pub or-both_false : (a b : Bool) → (a || b) ≡ false → (a ≡ false) × (b ≡ false)
or-both_false true b e = absurd (cc)
or-both_false false b e = (refl, e)

pub or_false : (a b : Bool) → a ≡ false → b ≡ false → (a || b) ≡ false
or_false true b e h = absurd (cc)
or_false false b e h = h

pub and_no : (a : Bool) → (a && false) ≡ false
and_no true = refl
and_no false = refl

pub and_mono_false : (a b d : Bool) → (a && b) ≡ false → (a && (b && d)) ≡ false
and_mono_false true true d e = absurd (cc)
and_mono_false true false d e = refl
and_mono_false false b d e = refl
