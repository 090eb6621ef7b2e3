-- ===== src/Backup/Adherence/Settled.antt =====
-- Which backup settles a window, and what the window is settled as.
use mathlib.Core.List.{Memᴰ}
use fleetward.Base.{
  ℕ, ◌≤◌, ◌≡◌, refl, ◌∙◌, inl, inr, Bool, true, false, not, ◌&&◌, ◌||◌, List, [], ◌∷◌, Option, none,
  some, arith, ltb, ◌==◌, if◌then◌else◌, Bool-cases, All, All-map, exists,
}
use fleetward.Backup.Adherence.{
  Window, Candidate, rank_of, in_window, AdherenceState, missed, adherent, unproven, failed,
  is_better, settle_from, state_of, decide,
}

-- A backup of this rank in the window.
abbrev pub has_rank : Window → ℕ → Candidate → Bool
has_rank w rank b = in_window w b && rank_of b.state == rank

-- The state by what the window holds, in the order of preference.
abbrev pub state_by_rank : Bool → Bool → Bool → AdherenceState
state_by_rank succeeded unknown failed_ =
    if succeeded then adherent else if unknown then unproven else if failed_ then failed else missed

abbrev best_is : ℕ → Option Candidate → Bool
best_is rank none = false
best_is rank (some s) = rank_of s.state == rank

-- A better backup replaces the one that settles the window so far.
abbrev IsKnown : Option Candidate → Type 0
IsKnown none = Unit
IsKnown (some s) = rank_of s.state ≤ 2

module _ (w : Window) where
  settle_from-state :
      (s : Option Candidate) (bs : List Candidate)
      → IsKnown s
      → state_of (settle_from w s bs)
        ≡ state_by_rank
            (best_is 0 s || exists (has_rank w 0) bs)
            (best_is 1 s || exists (has_rank w 1) bs)
            (best_is 2 s || exists (has_rank w 2) bs)
  unfolding settle_from
  settle_from-state none [] k = refl
  settle_from-state (some s) [] k = ground arith
  settle_from-state none (b ∷ bs) k =
      elim (Bool-cases (not (in_window w b) || ltb 2 (rank_of b.state))) [
        | inl skipped ↦ rw skipped (settle_from-state none bs tt ∙ ground arith)
        | inr counted ↦ rw counted (settle_from-state (some b) bs (ground arith) ∙ ground arith)
      ]
  settle_from-state (some s) (b ∷ bs) k =
      elim (Bool-cases (not (in_window w b) || ltb 2 (rank_of b.state))) [
        | inl skipped ↦ rw skipped (settle_from-state (some s) bs k ∙ ground arith)
        | inr counted ↦ elim (Bool-cases (ltb (rank_of b.state) (rank_of s.state))) [
          | inl better ↦
              rw (counted, better) (settle_from-state (some b) bs (ground arith) ∙ ground arith)
          | inr kept ↦ rw (counted, kept) (settle_from-state (some s) bs k ∙ ground arith)
        ]
      ]

  abbrev IsQ {κ} : (Candidate → Type κ) → Option Candidate → Type κ
  IsQ Q none = Unit
  IsQ Q (some s) = Q s

  settle_from-All {κ} :
      (Q : Candidate → Type κ) (s : Option Candidate) (bs : List Candidate)
      → IsQ Q s
      → All (λ b. in_window w b ≡ true → Q b) bs
      → IsQ Q (settle_from w s bs)
  unfolding settle_from
  settle_from-All Q s [] q all = q
  settle_from-All Q s (b ∷ bs) q all =
      elim (Bool-cases (not (in_window w b) || ltb 2 (rank_of b.state))) [
        | inl skipped ↦ rw skipped (settle_from-All Q s bs q all.1)
        | inr counted ↦ elim (Bool-cases (is_better b s)) [
          | inl better ↦
              rw (counted, better) (settle_from-All Q (some b) bs (all.0 (ground arith)) all.1)
          | inr kept ↦ rw (counted, kept) (settle_from-All Q s bs q all.1)
        ]
      ]

  every_member : (bs : List Candidate) → All (λ b. Memᴰ b bs) bs
  every_member [] = tt
  every_member (b ∷ bs) = (Memᴰ.head refl, All-map (λ c m. Memᴰ.tail m) bs (every_member bs))

  -- The backup that an answer rests on is a candidate, and in the window.
  abbrev pub RestsOn : List Candidate → Option Candidate → Type 0
  RestsOn bs none = Unit
  RestsOn bs (some s) = (in_window w s ≡ true) × Memᴰ s bs

  rests :
      (bs : List Candidate) (s : Option Candidate)
      → IsQ (λ b. (in_window w b ≡ true) × Memᴰ b bs) s
      → RestsOn bs s
  rests bs none q = tt
  rests bs (some s) q = q

  -- A window is adherent exactly when a candidate in it succeeded, whatever failed beside it; else
  -- unproven when the outcome of one is unknown, else failed when one failed, else missed. What the
  -- answer rests on, if anything, is a candidate in the window.
  pub decide_by_rank :
      (bs : List Candidate)
      → ((decide w bs).1
          ≡ state_by_rank
              (exists (has_rank w 0) bs)
              (exists (has_rank w 1) bs)
              (exists (has_rank w 2) bs))
        × RestsOn bs (decide w bs).0
  unfolding decide
  decide_by_rank bs = (
    settle_from-state none bs tt,
    rests bs (settle_from w none bs) (
        settle_from-All (λ b. (in_window w b ≡ true) × Memᴰ b bs) none bs tt
          (All-map (λ b m within. (within, m)) bs (every_member bs))),
  )
