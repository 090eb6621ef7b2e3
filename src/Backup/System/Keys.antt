-- ===== src/Backup/System/Keys.antt =====
-- The keys of two backups' artifacts.
use text.Mathlib.TextLemmas.{nil-append, cons-append, append_cancel_left}
use Prim.Native.Char.{Char, code}
use Prim.Native.String.{◌++◌ as append}
use fleetward.Base.{ℕ, ◌≡◌, ◌≢◌, refl, sym, ap, ◌∙◌, Bool, true, false, ◌||◌, String, ◌==◌, arith}
use fleetward.Backup.Runs.Recording.{artifact_key}

abbrev slash : Char
slash = "/"

abbrev pub has_slash : String → Bool
has_slash String.[] = false
has_slash (String.◌∷◌ c s) = code c == 47 || has_slash s

heads : {c d : Char} {s t : String} → String.◌∷◌ c s ≡ String.◌∷◌ d t → c ≡ d
heads e = cc

tails : {c d : Char} {s t : String} → String.◌∷◌ c s ≡ String.◌∷◌ d t → s ≡ t
tails e = cc

slashed : (c : Char) (s : String) → c ≡ slash → has_slash (String.◌∷◌ c s) ≡ false → ⊥
slashed c s e plain =
    let is : (code c == 47) ≡ true = ap (λ d. code d == 47) e in absurd (ground arith)

-- Two texts without a slash, each up to the first slash after it.
segments :
    (a b s t : String)
    → has_slash a ≡ false
    → has_slash b ≡ false
    → append a (String.◌∷◌ slash s) ≡ append b (String.◌∷◌ slash t)
    → (a ≡ b) × (s ≡ t)
segments String.[] String.[] s t plain plain' e =
    (refl, tails (sym (nil-append _) ∙ e ∙ nil-append _))
segments String.[] (String.◌∷◌ d b) s t plain plain' e =
    absurd (slashed d b (sym (heads (sym (nil-append _) ∙ e ∙ cons-append d b _))) plain')
segments (String.◌∷◌ c a) String.[] s t plain plain' e =
    absurd (slashed c a (heads (sym (cons-append c a _) ∙ e ∙ nil-append _)) plain)
segments (String.◌∷◌ c a) (String.◌∷◌ d b) s t plain plain' e =
    let whole = sym (cons-append c a _) ∙ e ∙ cons-append d b _ in
    let (same, rest) = segments a b s t (ground arith) (ground arith) (tails whole) in
    (ap (λ x. String.◌∷◌ x a) (heads whole) ∙ ap (String.◌∷◌ d) same, rest)

module _ (uuid : ℕ → String) (plain : (n : ℕ) → has_slash (uuid n) ≡ false) where
  -- The text of an id, up to what follows it.
  segment :
      (m n : ℕ) (before s t : String)
      → append (uuid m) (append (String.◌∷◌ slash before) s)
        ≡ append (uuid n) (append (String.◌∷◌ slash before) t)
      → (uuid m ≡ uuid n) × (s ≡ t)
  segment m n before s t e =
      let (same, rest) =
        segments (uuid m) (uuid n) (append before s) (append before t) (plain m) (plain n) (
          ap (append (uuid m)) (sym (cons-append slash before s))
          ∙ e
          ∙ ap (append (uuid n)) (cons-append slash before t)) in
      (same, append_cancel_left before s t rest)

  artifact_key-uuid :
      (tenant instance_id id tenant' instance_id' id' : ℕ)
      → artifact_key uuid tenant instance_id id ≡ artifact_key uuid tenant' instance_id' id'
      → uuid id ≡ uuid id'
  unfolding artifact_key
  artifact_key-uuid tenant instance_id id tenant' instance_id' id' e =
      let of_tenants = append_cancel_left "tenants/" _ _ e in
      let of_instances = segment tenant tenant' "instances/" _ _ of_tenants in
      let of_backups = segment instance_id instance_id' "backups/" _ _ of_instances.1 in
      (segments (uuid id) (uuid id') "artifact" "artifact" (plain id) (plain id') of_backups.1).0

  pub artifact_key-apart :
      ((m n : ℕ) → uuid m ≡ uuid n → m ≡ n)
      → (tenant instance_id id tenant' instance_id' id' : ℕ) → id ≢ id'
      → artifact_key uuid tenant instance_id id ≢ artifact_key uuid tenant' instance_id' id'
  artifact_key-apart injective tenant instance_id id tenant' instance_id' id' other e =
      other (injective id id' (artifact_key-uuid tenant instance_id id tenant' instance_id' id' e))
