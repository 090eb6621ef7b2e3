-- ===== src/Backup/Retention/Floor.antt =====
-- The floor: the first backup of an instance, in the order that the query ranks them by, is never
-- eligible.
use fleetward.Base.{
  ℕ, ◌<◌, ◌≡◌, refl, inl, inr, Bool, true, false, ◌&&◌, List, [], ◌∷◌, some, arith, Bool-cases, All,
  All-map, exists, affected, row, IsKeyed,
}
use fleetward.Backup.Retention.{
  Backup, Readers, is_owned, precedes, is_of, rank, floor_recent, is_owned_proven, floor_verified,
  is_eligible,
}
use fleetward.Backup.Retention.Expiry.{rows-IsKeyed}

precedes_trans : (a b c : Backup) → precedes a b ≡ true → precedes b c ≡ true → precedes a c ≡ true
unfolding precedes
precedes_trans a b c h k = ground arith

precedes_irrefl : (a : Backup) → precedes a a ≡ false
unfolding precedes
precedes_irrefl a = ground arith

-- Nothing that `q` admits comes before `m`.
abbrev IsFirst : (Backup → Bool) → List Backup → Backup → Type 0
IsFirst q rows m = All (λ a. (q a && precedes a m) ≡ false) rows

none_admitted :
    (q : Backup → Bool) (rows : List Backup) (m : Backup) → exists q rows ≡ false → IsFirst q rows m
none_admitted q [] m h = tt
none_admitted q (a ∷ as_) m h = (ground arith, none_admitted q as_ m (ground arith))

precedes-IsFirst :
    (q : Backup → Bool) (a m : Backup)
    → precedes a m ≡ true
    → (rows : List Backup) → IsFirst q rows m
    → IsFirst q rows a
precedes-IsFirst q a m before = All-map (λ x apart. elim (Bool-cases (precedes x a)) [
  | inl sooner ↦ let e = precedes_trans x a m sooner before in ground arith
  | inr later ↦ ground arith
])

-- Where some row is admitted, one of them comes first.
exists-IsFirst {κ} :
    (q : Backup → Bool) (Q : Backup → Type κ) (rows : List Backup)
    → All Q rows
    → exists q rows ≡ true
    → (m : Backup) × (q m ≡ true) × Q m × IsFirst q rows m
exists-IsFirst q Q [] all e = absurd (cc)
exists-IsFirst q Q (a ∷ as_) all e = elim (Bool-cases (exists q as_)) [
  | inl more ↦
      let (m, admitted, there, first) = exists-IsFirst q Q as_ all.1 more in
      elim (Bool-cases (q a && precedes a m)) [
        | inl sooner ↦ (
          a,
          ground arith,
          all.0,
          (ground (arith, precedes_irrefl a), precedes-IsFirst q a m (ground arith) as_ first),
        )
        | inr later ↦ (m, admitted, there, (later, first))
      ]
  | inr no_more ↦
      (a, ground arith, all.0, (ground (arith, precedes_irrefl a), none_admitted q as_ a no_more))
]

first-rank :
    (p : Backup → Bool) (i : ℕ) (m : Backup)
    → m.instance_id ≡ i
    → (rows : List Backup) → IsFirst (is_of p i) rows m
    → rank p rows m ≡ 0
unfolding rank affected
first-rank p i m e [] first = refl
first-rank p i m e (a ∷ as_) first = ground (arith, first-rank p i m e as_ first.1)

module _ (tenant min_keep now : ℕ) (readers : Readers) (rows : List Backup)
    (keyed : IsKeyed (λ b. b.id) rows) where
  spared_first :
      (p : Backup → Bool)
      → ((b : Backup)
          → p b ≡ true
          → rank p rows b ≡ 0
          → is_eligible tenant min_keep readers rows now b ≡ false)
      → (i : ℕ) → exists (is_of p i) rows ≡ true
      → (m : Backup) × (is_of p i m ≡ true)
        × (row (λ b. b.id) m.id rows ≡ some m)
        × (rank p rows m ≡ 0)
        × (is_eligible tenant min_keep readers rows now m ≡ false)
  spared_first p spared i e =
      let (m, admitted, there, first) =
        exists-IsFirst (is_of p i) (λ m. row (λ b. b.id) m.id rows ≡ some m) rows
          (rows-IsKeyed (λ b. b.id) rows keyed) e in
      let zeroth = first-rank p i m (ground arith) rows first in
      (m, admitted, there, zeroth, spared m (ground arith) zeroth)

  -- The most recent successful backup of an instance is not eligible, whatever its expiry.
  pub newest_spared :
      0 < min_keep
      → (i : ℕ) → exists (is_of (is_owned tenant) i) rows ≡ true
      → (m : Backup) × (is_of (is_owned tenant) i m ≡ true)
        × (row (λ b. b.id) m.id rows ≡ some m)
        × (rank (is_owned tenant) rows m ≡ 0)
        × (is_eligible tenant min_keep readers rows now m ≡ false)
  unfolding is_eligible floor_recent
  newest_spared keep = spared_first (is_owned tenant) (λ b owned zeroth. ground arith)

  -- Nor is the most recent one that was proven restorable.
  pub last_proof_spared :
      (i : ℕ)
      → exists (is_of (is_owned_proven tenant readers) i) rows ≡ true
      → (m : Backup) × (is_of (is_owned_proven tenant readers) i m ≡ true)
        × (row (λ b. b.id) m.id rows ≡ some m)
        × (rank (is_owned_proven tenant readers) rows m ≡ 0)
        × (is_eligible tenant min_keep readers rows now m ≡ false)
  unfolding is_eligible floor_verified
  last_proof_spared =
      spared_first (is_owned_proven tenant readers) (λ b proven zeroth. ground arith)
