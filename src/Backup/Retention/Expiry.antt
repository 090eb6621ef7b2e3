-- ===== src/Backup/Retention/Expiry.antt =====
-- What a sweep may expire: a backup that has outlived its retention, and no other.
use fleetward.Base.{
  ℕ, ◌≤◌, ◌≡◌, refl, sym, ap, ◌∙◌, ◌⊎◌, inl, inr, true, false, List, [], ◌∷◌, map, Option, none,
  some, arith, ◌==◌, ==→eq, Bool-cases, All, All-map, exists, where_rows, row, row-key,
  row-update-some, IsKeyed, IsKeyed-update, take, sort_on, All-sort_on, All-take, All-where_rows,
}
use fleetward.Backup.Retention.{
  Backup, Readers, is_managed, is_succeeded, is_owned, rank, has_outlived, floor_recent,
  floor_verified, is_busy, is_candidate, is_eligible,
}
use fleetward.Backup.Retention.Sweep.{expire, expiry, outlived_ids, is_named, expire_outlived}

none-some {ℓ} : {A : Type ℓ} {a : A} → none ≡ some a → ⊥
none-some h = cc

some-injective {ℓ} : {A : Type ℓ} {a b : A} → some a ≡ some b → a ≡ b
some-injective h = cc

-- Each row of a table with a key is the row of its key.
pub rows-IsKeyed {ℓ} :
    {A : Type ℓ} (key : A → ℕ) (xs : List A)
    → IsKeyed key xs
    → All (λ x. row key (key x) xs ≡ some x) xs
unfolding row
rows-IsKeyed key [] k = tt
rows-IsKeyed key (x ∷ xs) k = (
  ground arith,
  All-map
      (λ y h. elim (Bool-cases (key x == key y)) [
        | inl same ↦
            absurd (none-some (sym k.0 ∙ ap (λ i. row key i xs) (==→eq (key x) (key y) same) ∙ h))
        | inr other ↦ rw other h
      ])
      xs (rows-IsKeyed key xs k.1),
)

-- An id in a list of ids is the id of one of the rows that were listed.
pub exists-map {ℓ κ} :
    {A : Type ℓ} (key : A → ℕ) (Q : A → Type κ) (id : ℕ) (xs : List A)
    → All Q xs
    → exists (λ i. i == id) (map key xs) ≡ true
    → (x : A) × (key x ≡ id) × Q x
exists-map key Q id [] h e = absurd (cc)
exists-map key Q id (x ∷ xs) h e = elim (Bool-cases (key x == id)) [
  | inl same ↦ (x, ==→eq (key x) id same, h.0)
  | inr other ↦ exists-map key Q id xs h.1 (rw other at e)
]

-- Why a row may be expired: it is this tenant's, Fleetward took it and it succeeded, it has an
-- expiry and that has come, at least `min_keep` backups of its instance are more recent, and it is
-- neither the last one proven restorable nor in use.
pub record IsOutlived (tenant min_keep now : ℕ) (readers : Readers) (rows : List Backup)
    (b : Backup) : Type 0 where
  pub of_tenant : b.tenant_id ≡ tenant
  pub managed : is_managed b.origin ≡ true
  pub succeeded : is_succeeded b.state ≡ true
  pub outlived : (t : ℕ) × (b.expires_at ≡ some t) × (t ≤ now)
  pub not_recent : min_keep ≤ rank (is_owned tenant) rows b
  pub not_last_proof : floor_verified tenant min_keep readers rows b ≡ false
  pub idle : is_busy tenant readers b ≡ false

has_outlived-some :
    (o : Option ℕ) (now : ℕ) → has_outlived o now ≡ true → (t : ℕ) × (o ≡ some t) × (t ≤ now)
has_outlived-some none now h = absurd (cc)
has_outlived-some (some t) now h = (t, refl, ground arith)

module _ (tenant min_keep now : ℕ) (readers : Readers) (rows : List Backup) where
  is_eligible-IsOutlived :
      (b : Backup)
      → is_eligible tenant min_keep readers rows now b ≡ true
      → IsOutlived tenant min_keep now readers rows b
  unfolding is_eligible is_candidate is_owned floor_recent
  is_eligible-IsOutlived b h = record {
    of_tenant = ground arith;
    managed = ground arith;
    succeeded = ground arith;
    outlived = has_outlived-some b.expires_at now (ground arith);
    not_recent = ground arith;
    not_last_proof = ground arith;
    idle = ground arith;
  }

  module _ (limit : ℕ) (keyed : IsKeyed (λ b. b.id) rows) where
    -- The rows that a sweep names are eligible.
    pub named-is_eligible :
        (id : ℕ) (b : Backup)
        → row (λ b. b.id) id rows ≡ some b
        → is_named tenant (outlived_ids tenant min_keep limit now readers rows) b ≡ true
        → is_eligible tenant min_keep readers rows now b ≡ true
    named-is_eligible id b here hit =
        let p = is_eligible tenant min_keep readers rows now in
        let (c, same, (chosen, there)) =
          exists-map (λ b. b.id) (λ c. (p c ≡ true) × (row (λ b. b.id) c.id rows ≡ some c)) b.id
            (take limit (sort_on expiry (where_rows p rows)))
            (All-take _ limit _ (
              All-sort_on expiry _ (where_rows p rows)
                (All-where_rows _ p rows (rows-IsKeyed (λ b. b.id) rows keyed))))
            (ground arith) in
        let mine = row-key (λ b. b.id) id rows here in
        let same_row : some c ≡ some b =
          sym there ∙ ap (λ i. row (λ b. b.id) i rows) (same ∙ mine) ∙ here in
        ap p (some-injective (sym same_row)) ∙ chosen

    -- Where ids are unique, the first step of a sweep leaves a row as it was, or expires it, and
    -- then the row has outlived its retention.
    pub expire_outlived-row :
        (id : ℕ) (b : Backup)
        → row (λ b. b.id) id rows ≡ some b
        → let after = (expire_outlived tenant min_keep limit now readers rows).0 in
          (row (λ b. b.id) id after ≡ some b)
          ⊎ ((row (λ b. b.id) id after ≡ some (expire now b))
              × IsOutlived tenant min_keep now readers rows b)
    unfolding expire_outlived
    expire_outlived-row id b here =
        let ids = outlived_ids tenant min_keep limit now readers rows in
        let after =
          row-update-some (λ b. b.id) (is_named tenant ids) (expire now) (λ b. refl) id rows here in
        elim (Bool-cases (is_named tenant ids b)) [
          | inl hit ↦
              inr (after ∙ rw hit, is_eligible-IsOutlived b (named-is_eligible id b here hit))
          | inr miss ↦ inl (after ∙ rw miss)
        ]

    -- A row that is not eligible is left as it was.
    pub ineligible_spared :
        (id : ℕ) (b : Backup)
        → row (λ b. b.id) id rows ≡ some b
        → is_eligible tenant min_keep readers rows now b ≡ false
        → row (λ b. b.id) id (expire_outlived tenant min_keep limit now readers rows).0 ≡ some b
    unfolding expire_outlived
    ineligible_spared id b here spared =
        let ids = outlived_ids tenant min_keep limit now readers rows in
        row-update-some (λ b. b.id) (is_named tenant ids) (expire now) (λ b. refl) id rows here
        ∙ elim (Bool-cases (is_named tenant ids b)) [
          | inl hit ↦ let yes_ = named-is_eligible id b here hit in absurd (cc)
          | inr miss ↦ rw miss
        ]

    pub expire_outlived-IsKeyed :
        IsKeyed (λ b. b.id) (expire_outlived tenant min_keep limit now readers rows).0
    unfolding expire_outlived
    expire_outlived-IsKeyed =
        IsKeyed-update (λ b. b.id)
          (is_named tenant (outlived_ids tenant min_keep limit now readers rows)) (expire now)
          (λ b. refl) rows keyed
