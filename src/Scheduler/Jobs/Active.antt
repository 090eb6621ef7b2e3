-- ===== src/Scheduler/Jobs/Active.antt =====
-- The table as its indexes keep it: one row to an id, and at most one active job of a kind for each
-- instance, whatever statements have run.
use fleetward.Base.{
  or_false, ◌≡◌, refl, inl, inr, Bool, true, false, List, [], ◌∷◌, arith, Bool-cases, All, exists,
  update,
}
use fleetward.Scheduler.Rows.{Job}
use fleetward.Scheduler.Jobs.{kind_number, is_active, collides}

-- No two rows are under one key of idx_jobs_one_active_per_instance_kind.
abbrev pub OneActive : List Job → Type 0
OneActive [] = Unit
OneActive (j ∷ js) = (exists (collides j) js ≡ false) × OneActive js

-- An update that moves no row to another key of the index, and makes no closed row active.
abbrev pub Tame : (Job → Bool) → (Job → Job) → List Job → Type 0
Tame p f = All λ j.
    p j ≡ true
    → ((f j).instance_id ≡ j.instance_id)
      × (kind_number (f j).kind ≡ kind_number j.kind)
      × (is_active (f j).state ≡ true → is_active j.state ≡ true)

collides_apart :
    (j j' x x' : Job)
    → j'.instance_id ≡ j.instance_id
    → kind_number j'.kind ≡ kind_number j.kind
    → (is_active j'.state ≡ true → is_active j.state ≡ true)
    → (x'.instance_id ≡ x.instance_id)
      × (kind_number x'.kind ≡ kind_number x.kind)
      × (is_active x'.state ≡ true → is_active x.state ≡ true)
    → collides j x ≡ false
    → collides j' x' ≡ false
collides_apart j j' x x' i k a t e = ground arith

exists-update :
    (p : Job → Bool) (f : Job → Job) (j j' : Job)
    → j'.instance_id ≡ j.instance_id
    → kind_number j'.kind ≡ kind_number j.kind
    → (is_active j'.state ≡ true → is_active j.state ≡ true)
    → (js : List Job) → Tame p f js
    → exists (collides j) js ≡ false
    → exists (collides j') (update p f js) ≡ false
unfolding update
exists-update p f j j' i k a [] t e = refl
exists-update p f j j' i k a (x ∷ js) t e =
    let rest = exists-update p f j j' i k a js t.1 (ground arith) in
    let apart : collides j x ≡ false = ground arith in
    elim (Bool-cases (p x)) [
      | inl hit ↦ rw hit (or_false _ _ (collides_apart j j' x (f x) i k a (t.0 hit) apart) rest)
      | inr miss ↦
          rw miss (or_false _ _ (collides_apart j j' x x i k a (refl, refl, λ h. h) apart) rest)
    ]

pub update-OneActive :
    (p : Job → Bool) (f : Job → Job) (js : List Job)
    → Tame p f js
    → OneActive js
    → OneActive (update p f js)
unfolding update
update-OneActive p f [] t o = tt
update-OneActive p f (j ∷ js) t o = elim (Bool-cases (p j)) [
  | inl hit ↦ rw hit (
    exists-update p f j (f j) (t.0 hit).0 (t.0 hit).1 (t.0 hit).2 js t.1 o.0,
    update-OneActive p f js t.1 o.1,
  )
  | inr miss ↦
      rw miss (exists-update p f j j refl refl (λ a. a) js t.1 o.0, update-OneActive p f js t.1 o.1)
]
