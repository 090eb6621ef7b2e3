-- ===== src/Backup/Retention/Kept.antt =====
-- What a sweep keeps of each instance, whatever its configuration.
use fleetward.Base.{
  ℕ, ◌≡◌, refl, inl, inr, true, false, List, Option, some, String, arith, ◌==◌, Bool-cases,
  pos_part, exists, row, IsKeyed,
}
use fleetward.Scheduler.Rows.{BackupState}
use fleetward.Backup.Retention.{
  Backup, Readers, is_expired, is_succeeded, is_owned, is_of, rank, is_owned_proven,
}
use fleetward.Backup.Retention.Floor.{newest_spared, last_proof_spared}
use fleetward.Backup.Retention.Untouched.{sweep_spares}
use fleetward.Backup.Retention.Sweep.{
  ObjectStore, RetentionPolicy, is_pending_artifact, sweep_retention,
}

succeeded-is_expired : (state : BackupState) → is_succeeded state ≡ true → is_expired state ≡ false
succeeded-is_expired BackupState.succeeded h = refl
succeeded-is_expired BackupState.pending h = cc
succeeded-is_expired BackupState.running h = cc
succeeded-is_expired BackupState.failed h = cc
succeeded-is_expired BackupState.canceled h = cc
succeeded-is_expired BackupState.expired h = cc
succeeded-is_expired BackupState.unknown h = cc

module _ (store : ObjectStore) (tenant now : ℕ) (mark_error : ℕ → Option String) where
  open store use {Objects}

  module _ (policy : RetentionPolicy) (readers : Readers) (objects : Objects) (rows : List Backup)
      (keyed : IsKeyed (λ b. b.id) rows) where
    owned_settled : (b : Backup) → is_owned tenant b ≡ true → is_pending_artifact tenant b ≡ false
    unfolding is_owned
    owned_settled b owned = let e = succeeded-is_expired b.state (ground arith) in ground arith

    -- Where ids are unique, and however a sweep is configured, an instance that has a successful
    -- backup of this tenant's that Fleetward took keeps one: the row of the most recent of them,
    -- which none precedes in the order of the query, is as it was.
    pub newest_kept :
        (instance_id : ℕ)
        → exists (is_of (is_owned tenant) instance_id) rows ≡ true
        → let after =
            (sweep_retention store tenant now mark_error policy readers objects rows).0.rows in
          (m : Backup) × (is_of (is_owned tenant) instance_id m ≡ true)
          × (rank (is_owned tenant) rows m ≡ 0)
          × (row (λ b. b.id) m.id after ≡ some m)
    newest_kept i some_owned = elim (Bool-cases (pos_part policy.min_keep == 0)) [
      | inl refused ↦
          let (m, owned, there, zeroth, spared) =
            newest_spared tenant 1 now readers rows keyed (omega arith) i some_owned in
          (
            m,
            owned,
            zeroth,
            sweep_spares store tenant now mark_error policy readers objects rows keyed m.id m there
                (λ keep. absurd (ground arith)) (owned_settled m (ground arith)),
          )
      | inr kept ↦
          let (m, owned, there, zeroth, spared) =
            newest_spared tenant (pos_part policy.min_keep) now readers rows keyed (ground arith) i
              some_owned in
          (
            m,
            owned,
            zeroth,
            sweep_spares store tenant now mark_error policy readers objects rows keyed m.id m there
                (λ _. spared) (owned_settled m (ground arith)),
          )
    ]

    -- Where ids are unique, and however a sweep is configured, an instance of which some
    -- successful backup was proven restorable keeps such a one: the row of the most recent of
    -- them is as it was.
    pub last_proof_kept :
        (instance_id : ℕ)
        → exists (is_of (is_owned_proven tenant readers) instance_id) rows ≡ true
        → let after =
            (sweep_retention store tenant now mark_error policy readers objects rows).0.rows in
          (m : Backup) × (is_of (is_owned_proven tenant readers) instance_id m ≡ true)
          × (rank (is_owned_proven tenant readers) rows m ≡ 0)
          × (row (λ b. b.id) m.id after ≡ some m)
    last_proof_kept i some_proven =
        let (m, proven, there, zeroth, spared) =
          last_proof_spared tenant (pos_part policy.min_keep) now readers rows keyed i
            some_proven in
        (
          m,
          proven,
          zeroth,
          sweep_spares store tenant now mark_error policy readers objects rows keyed m.id m there
              (λ _. spared) (owned_settled m (ground arith)),
        )
