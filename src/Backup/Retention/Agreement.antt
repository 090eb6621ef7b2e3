-- ===== src/Backup/Retention/Agreement.antt =====
-- The preview and the first step of a sweep agree.
use text.Mathlib.Text.{◌==◌ as str_eq}
use text.Mathlib.TextEquality.{eq_iff}
use Prim.Native.String.{◌++◌ as append, ◌∷◌ as char_cons}
use Prim.Native.String.append as string_append
use fleetward.Base.{
  ℕ, ◌≤◌, ◌≡◌, refl, sym, ap, subst, ◌∙◌, inl, inr, Bool, true, false, not, ◌&&◌, ◌||◌, List, [],
  ◌∷◌, map, none, some, String, arith, ◌==◌, if◌then◌else◌, eq→==, ==→eq, Bool-cases, pos_part,
  is_positive, length, exists, where_rows, row, row-key, row-update-some, IsKeyed, take, sort_on,
  All-sort_on, All-where_rows,
}
use fleetward.Backup.Retention.{
  Backup, Readers, is_owned, floor_recent, floor_verified, is_busy, is_candidate, is_eligible,
}
use fleetward.Backup.Retention.Listing.{
  exists-found, exists-where_rows, exists-sort_on, length-sort_on, take_all, row-exists,
}
use fleetward.Backup.Retention.Expiry.{rows-IsKeyed, named-is_eligible}
use fleetward.Backup.Retention.Sweep.{
  RetentionPolicy, expire, expiry, outlived_ids, is_named, expire_outlived,
}
use fleetward.Backup.Retention.Preview.{
  protection_reason, floor_of, candidates, reason_of, is_expiring, preview_retention,
}

kept_because : (s : String) → str_eq (append "kept: " s) "" ≡ false
kept_because s = elim (Bool-cases (str_eq (append "kept: " s) "")) [
  | inl empty ↦
      let e : char_cons "k" (append "ept: " s) ≡ "" =
        sym (string_append.cons "k" "ept: " s) ∙ (eq_iff (append "kept: " s) "").0 empty in
      absurd (cc)
  | inr nonempty ↦ nonempty
]

-- No reason is given exactly to what neither floor keeps and nothing reads.
protection_reason-empty :
    (recent verified busy : Bool) (min_keep : ℕ)
    → str_eq (protection_reason recent verified busy min_keep) ""
      ≡ (not recent && not verified && not busy)
unfolding protection_reason
protection_reason-empty true true busy k = kept_because _
protection_reason-empty true false busy k = kept_because _
protection_reason-empty false true busy k = refl
protection_reason-empty false false true k = refl
protection_reason-empty false false false k = refl

and_assoc : (a b c d : Bool) → (a && (not b && not c && not d)) ≡ (a && not b && not c && not d)
and_assoc true b c d = refl
and_assoc false b c d = refl

exists_id-map :
    (id : ℕ) (bs : List Backup)
    → exists (λ b. b.id == id) bs ≡ exists (λ i. i == id) (map (λ b. b.id) bs)
exists_id-map id [] = refl
exists_id-map id (b ∷ bs) = ap (λ t. b.id == id || t) (exists_id-map id bs)

same_answer : (a b : Bool) → (a ≡ true → b ≡ true) → (b ≡ true → a ≡ true) → a ≡ b
same_answer true true h k = refl
same_answer true false h k = sym (h refl)
same_answer false true h k = k refl
same_answer false false h k = refl

module _ (tenant : ℕ) (policy : RetentionPolicy) (now : ℕ) (readers : Readers) (rows : List Backup)
    (keyed : IsKeyed (λ b. b.id) rows) (positive : is_positive policy.min_keep ≡ true) where
  -- In the preview of the estate as in the sweep: a candidate that nothing protects.
  expiring_lem :
      (b : Backup)
      → (is_candidate tenant (floor_of policy) readers rows now b
          && is_expiring tenant policy none now readers rows b)
        ≡ is_eligible tenant (pos_part policy.min_keep) readers rows now b
  unfolding is_eligible reason_of is_candidate
  expiring_lem b =
      let e =
        protection_reason-empty (floor_recent tenant (floor_of policy) readers rows b)
          (floor_verified tenant (floor_of policy) readers rows b) (is_busy tenant readers b)
          (floor_of policy) in
      let same_floor : floor_of policy ≡ pos_part policy.min_keep = rw positive in
      ap (λ a. is_candidate tenant (floor_of policy) readers rows now b && a) e
      ∙ and_assoc (is_candidate tenant (floor_of policy) readers rows now b) _ _ _
      ∙ ap (λ k. is_eligible tenant k readers rows now b) same_floor

  abbrev listed : ℕ → Bool
  listed id =
      exists (λ c. c.id == id) (preview_retention tenant policy none now readers rows).expiring

  module _ (limit id : ℕ) (b : Backup) (here : row (λ b. b.id) id rows ≡ some b) where
    listed-is_eligible :
        listed id ≡ true → is_eligible tenant (pos_part policy.min_keep) readers rows now b ≡ true
    unfolding preview_retention candidates sort_on
    listed-is_eligible hit =
        let cand = is_candidate tenant (floor_of policy) readers rows now in
        let (c, same, (expiring, (candidate, there))) =
          exists-found (λ c. c.id == id)
            (λ c.
              (is_expiring tenant policy none now readers rows c ≡ true)
              × (((cand c && true) ≡ true) × (row (λ b. b.id) c.id rows ≡ some c)))
            (where_rows (is_expiring tenant policy none now readers rows)
              (candidates tenant policy none now readers rows))
            (All-where_rows _ (is_expiring tenant policy none now readers rows) _ (
              All-sort_on expiry _ _ (
                All-sort_on (λ b. b.id) _ _
                  (All-where_rows _ (λ b. cand b && true) rows
                    (rows-IsKeyed (λ b. b.id) rows keyed)))))
            hit in
        let same_row : some c ≡ some b =
          sym there ∙ ap (λ i. row (λ b. b.id) i rows) (==→eq c.id id same) ∙ here in
        let c_is_b : c ≡ b = cc in
        ap (is_eligible tenant (pos_part policy.min_keep) readers rows now) (sym c_is_b)
        ∙ sym (expiring_lem c)
        ∙ ground arith

    eligible-listed :
        is_eligible tenant (pos_part policy.min_keep) readers rows now b ≡ true → listed id ≡ true
    unfolding preview_retention candidates sort_on
    eligible-listed eligible =
        let cand = is_candidate tenant (floor_of policy) readers rows now in
        let expiring = is_expiring tenant policy none now readers rows in
        let both : (cand b && expiring b) ≡ true = expiring_lem b ∙ eligible in
        exists-where_rows (λ c. c.id == id) expiring _
          (exists-sort_on expiry (λ c. c.id == id && expiring c) _
            (exists-sort_on (λ b. b.id) (λ c. c.id == id && expiring c) _
              (exists-where_rows (λ c. c.id == id && expiring c) (λ b. cand b && true) rows
                (row-exists (λ b. b.id) (λ c. (c.id == id && expiring c) && (cand c && true)) id
                  rows here (ground (arith, row-key (λ b. b.id) id rows here))))))

    eligible-named :
        length (where_rows (is_eligible tenant (pos_part policy.min_keep) readers rows now) rows)
          ≤ limit
        → is_eligible tenant (pos_part policy.min_keep) readers rows now b ≡ true
        → is_named tenant (outlived_ids tenant (pos_part policy.min_keep) limit now readers rows) b
          ≡ true
    unfolding is_eligible is_candidate is_owned
    eligible-named fits eligible =
        let p = is_eligible tenant (pos_part policy.min_keep) readers rows now in
        let chosen = sort_on expiry (where_rows p rows) in
        let found : exists (λ c. c.id == b.id) chosen ≡ true =
          exists-sort_on expiry (λ c. c.id == b.id) (where_rows p rows)
            (exists-where_rows (λ c. c.id == b.id) p rows
              (row-exists (λ b. b.id) (λ c. c.id == b.id && p c) id rows here
                (ap (λ t. t && p b) (eq→== b.id b.id refl) ∙ eligible))) in
        let named : exists (λ i. i == b.id) (map (λ b. b.id) (take limit chosen)) ≡ true =
          sym (exists_id-map b.id (take limit chosen))
          ∙ ap (exists (λ c. c.id == b.id)) (
              take_all limit chosen
                (subst (λ n. n ≤ limit) (sym (length-sort_on expiry (where_rows p rows))) fits))
          ∙ found in
        let mine : (b.tenant_id == tenant) ≡ true = ground arith in
        ap (λ t. t && exists (λ i. i == b.id) (map (λ b. b.id) (take limit chosen))) mine ∙ named

  -- What the preview of the estate lists as expiring is what the first step of a sweep expires: where ids
  -- are unique, the configured floor is positive and no more backups are eligible than one sweep
  -- takes, each row is expired if the preview lists its id and stays as it was if not.
  pub preview-expire_outlived :
      (limit id : ℕ) (b : Backup)
      → length (where_rows (is_eligible tenant (pos_part policy.min_keep) readers rows now) rows)
        ≤ limit
      → row (λ b. b.id) id rows ≡ some b
      → let expiring = (preview_retention tenant policy none now readers rows).expiring in
        row
          (λ b. b.id)
          id
          (expire_outlived tenant (pos_part policy.min_keep) limit now readers rows).0
        ≡ some (if exists (λ c. c.id == id) expiring then expire now b else b)
  unfolding expire_outlived preview_retention
  preview-expire_outlived limit id b fits here =
      let ids = outlived_ids tenant (pos_part policy.min_keep) limit now readers rows in
      row-update-some (λ b. b.id) (is_named tenant ids) (expire now) (λ b. refl) id rows here
      ∙ ap (λ t. some (if t then expire now b else b))
          (same_answer (is_named tenant ids b) (listed id)
            (λ named. eligible-listed limit id b here (
              named-is_eligible tenant (pos_part policy.min_keep) now readers rows limit keyed id b
                here named))
            (λ hit. eligible-named limit id b here fits (listed-is_eligible limit id b here hit)))
