-- ===== src/Scheduler/Materialize/Ticks.antt =====
-- Replicas that race for a tick: the compare-and-swap of `materialize`.
use fleetward.Base.{
  ℕ, ◌+◌, ◌≤◌, ◌<◌, ◌≡◌, refl, ◌∙◌, inl, inr, true, ◌&&◌, List, [], ◌∷◌, Option, none, some, arith,
  ◌==◌, if◌then◌else◌, Bool-cases, Option-cases, holds, All, row, row-key, row-update-some,
  row-update-none, affected-row, affected-row-none, IsKeyed, IsKeyed-update,
}
use fleetward.Scheduler.Schedules.{Schedule}
use fleetward.Scheduler.Materialize.{is_at, advance_row, advance}

-- One swap that some replica tries: it read `old` and computed `next`.
pub record Attempt : Type 0 where
  pub id : ℕ
  pub next : ℕ
  pub old : ℕ
  pub now : ℕ

abbrev pub attempt : Attempt → List Schedule → List Schedule × ℕ
attempt a rows = advance a.id a.next a.old a.now rows

-- How many of the attempts on one tick of one schedule succeeded, in the order in which the
-- database carried them out.
unfoldable pub wins : ℕ → ℕ → List Schedule → List Attempt → ℕ
wins id old rows [] = 0
wins id old rows (a ∷ as_) =
    (if a.id == id && a.old == old then (attempt a rows).1 else 0)
    + wins id old (attempt a rows).0 as_

abbrev IsBeyond : ℕ → Option Schedule → Type 0
IsBeyond old none = ⊥
IsBeyond old (some s) = (t : ℕ) × (s.next_run_at ≡ some t) × (old < t)

advance-row :
    (a : Attempt) (rows : List Schedule) (id : ℕ) {s : Schedule}
    → row (λ s'. s'.id) id rows ≡ some s
    → row (λ s'. s'.id) id (attempt a rows).0
      ≡ some (if is_at a.id a.old s then advance_row a.next a.now s else s)
unfolding advance
advance-row a rows id here =
    row-update-some (λ s'. s'.id) (is_at a.id a.old) (advance_row a.next a.now) (λ s'. refl) id rows
      here

is_at-id : (id old : ℕ) (s : Schedule) → is_at id old s ≡ true → s.id ≡ id
is_at-id id old s h = ground arith

advance-IsKeyed :
    (a : Attempt) (rows : List Schedule)
    → IsKeyed (λ s. s.id) rows
    → IsKeyed (λ s. s.id) (attempt a rows).0
unfolding advance
advance-IsKeyed a rows k =
    IsKeyed-update (λ s. s.id) (is_at a.id a.old) (advance_row a.next a.now) (λ s. refl) rows k

-- A swap takes one tick, and only the tick that the row is at.
advance-wins :
    (a : Attempt) (rows : List Schedule) {s : Schedule}
    → IsKeyed (λ s'. s'.id) rows
    → row (λ s'. s'.id) a.id rows ≡ some s
    → (attempt a rows).1 ≡ (if holds s.next_run_at a.old then 1 else 0)
unfolding advance
advance-wins a rows {s} k here = ground (
  arith,
  row-key (λ s'. s'.id) a.id rows here,
  affected-row (λ s'. s'.id) a.id (is_at a.id a.old) rows (is_at-id a.id a.old) k here,
)

advance_missing :
    (a : Attempt) (rows : List Schedule) → row (λ s. s.id) a.id rows ≡ none → (attempt a rows).1 ≡ 0
unfolding advance
advance_missing a rows e =
    affected-row-none (λ s. s.id) a.id (is_at a.id a.old) rows (is_at-id a.id a.old) e

abbrev pub Forward : List Attempt → Type 0
Forward = All λ a. a.old < a.next

-- Once a schedule is past a tick it stays past it, and nobody takes that tick again.
wins_beyond :
    (id old t : ℕ) (rows : List Schedule) (as_ : List Attempt) (s : Schedule)
    → Forward as_
    → IsKeyed (λ s'. s'.id) rows
    → row (λ s'. s'.id) id rows ≡ some s
    → s.next_run_at ≡ some t
    → old < t
    → wins id old rows as_ ≡ 0
unfolding wins
wins_beyond id old t rows [] s fwd k here at past = refl
wins_beyond id old t rows (a ∷ as_) s fwd k here at past = elim (Bool-cases (is_at a.id a.old s)) [
  | inl hit ↦ ground (
    arith,
    row-key (λ s'. s'.id) id rows here,
    advance-wins a rows {s = s} k,
    wins_beyond id old a.next (attempt a rows).0 as_ (advance_row a.next a.now s) fwd.1
        (advance-IsKeyed a rows k) (advance-row a rows id here ∙ rw hit) refl (ground arith),
  )
  | inr miss ↦ ground (
    arith,
    row-key (λ s'. s'.id) id rows here,
    advance-wins a rows {s = s} k,
    wins_beyond id old t (attempt a rows).0 as_ s fwd.1 (advance-IsKeyed a rows k)
        (advance-row a rows id here ∙ rw miss) at past,
  )
]

still_missing :
    (id old : ℕ) (a : Attempt) (rows : List Schedule)
    → row (λ s. s.id) id rows ≡ none
    → row (λ s. s.id) id (attempt a rows).0 ≡ none
unfolding advance
still_missing id old a rows e =
    row-update-none (λ s. s.id) (is_at a.id a.old) (advance_row a.next a.now) (λ s. refl) id rows e

wins_missing :
    (id old : ℕ) (rows : List Schedule) (as_ : List Attempt)
    → row (λ s. s.id) id rows ≡ none
    → wins id old rows as_ ≡ 0
unfolding wins
wins_missing id old rows [] e = refl
wins_missing id old rows (a ∷ as_) e = ground (
  arith,
  advance_missing a rows,
  wins_missing id old (attempt a rows).0 as_ (still_missing id old a rows e),
)

wins_here :
    (id old : ℕ) (rows : List Schedule) (as_ : List Attempt) (s : Schedule)
    → Forward as_
    → IsKeyed (λ s'. s'.id) rows
    → row (λ s'. s'.id) id rows ≡ some s
    → wins id old rows as_ ≤ 1
unfolding wins
wins_here id old rows [] s fwd k here = omega arith
wins_here id old rows (a ∷ as_) s fwd k here = elim (Bool-cases (is_at a.id a.old s)) [
  | inl hit ↦ elim (Bool-cases (a.old == old)) [
    | inl this_tick ↦ ground (
      arith,
      row-key (λ s'. s'.id) id rows here,
      advance-wins a rows {s = s} k,
      wins_beyond id old a.next (attempt a rows).0 as_ (advance_row a.next a.now s) fwd.1
          (advance-IsKeyed a rows k) (advance-row a rows id here ∙ rw hit) refl (ground arith),
    )
    | inr other_tick ↦ ground (
      arith,
      wins_here id old (attempt a rows).0 as_ (advance_row a.next a.now s) fwd.1
          (advance-IsKeyed a rows k) (advance-row a rows id here ∙ rw hit),
    )
  ]
  | inr miss ↦ ground (
    arith,
    row-key (λ s'. s'.id) id rows here,
    advance-wins a rows {s = s} k,
    wins_here id old (attempt a rows).0 as_ s fwd.1 (advance-IsKeyed a rows k)
        (advance-row a rows id here ∙ rw miss),
  )
]

-- Where ids are unique: however many replicas read one tick of a schedule, and in whatever order
-- their swaps reach the database, at most one of them takes it, provided that each computed a
-- next run later than the tick it read.
pub tick_taken_once :
    (id old : ℕ) (rows : List Schedule) (as_ : List Attempt)
    → IsKeyed (λ s. s.id) rows
    → Forward as_
    → wins id old rows as_ ≤ 1
tick_taken_once id old rows as_ k fwd = elim (Option-cases (row (λ s. s.id) id rows)) [
  | inl missing ↦ omega (arith, wins_missing id old rows as_ missing)
  | inr (s, here) ↦ wins_here id old rows as_ s fwd k here
]
