-- ===== src/Backup/Retention/Stamped.antt =====
-- The retention that a run was given, and when its backup may go.
use fleetward.Base.{
  ℕ, zero, suc, ◌+◌, ◌*◌, ◌≤◌, ◌≡◌, refl, sym, ap, ◌∙◌, true, List, arith, ℤ, pos, negsuc, pos_part,
  is_positive,
}
use fleetward.Backup.Retention.{
  Backup, Readers, stamped_expiry, has_outlived, is_candidate, is_eligible,
}

stamped_expiry-outlived :
    (days : ℤ) (completed now : ℕ)
    → has_outlived (stamped_expiry days completed) now ≡ true
    → (is_positive days ≡ true) × (completed + pos_part days * 86400000000 ≤ now)
unfolding stamped_expiry
stamped_expiry-outlived (pos zero) completed now h = absurd (cc)
stamped_expiry-outlived (pos (suc n)) completed now h = (refl, ground arith)
stamped_expiry-outlived (negsuc n) completed now h = absurd (cc)

-- A backup whose expiry is the one that was stamped on it is eligible only once the whole retention,
-- which is then positive, has passed since it completed. A retention that is not positive keeps it
-- for good.
pub retention_is_kept :
    (tenant min_keep now completed : ℕ) (readers : Readers) (rows : List Backup) (b : Backup)
    (days : ℤ)
    → b.expires_at ≡ stamped_expiry days completed
    → is_eligible tenant min_keep readers rows now b ≡ true
    → (is_positive days ≡ true) × (completed + pos_part days * 86400000000 ≤ now)
unfolding is_eligible is_candidate
retention_is_kept tenant min_keep now completed readers rows b days stamp eligible =
    let outlived : has_outlived b.expires_at now ≡ true = ground arith in
    stamped_expiry-outlived days completed now (ap (λ o. has_outlived o now) (sym stamp) ∙ outlived)
