-- ===== src/Alerts/Vocabulary/Names.antt =====
-- The names of kinds and fingerprints determine them.
use fleetward.Base.{
  ℕ, ◌≡◌, refl, ap, ◌↔◌, true, Option, none, some, sym, ◌∙◌, if◌then◌else◌, arith, ◌==◌, ==→eq,
}
use fleetward.Alerts.Vocabulary.{
  RuleKind, AlertKind, kind_number, is_kind, rule_kind_string, rule_kind_enum, Fingerprint,
  is_subject, is_fingerprint,
}

-- The stored name of a kind and the API's kind go back and forth: a kind has a stored name exactly
-- if it is the kind of that name, and the kinds without a name are the unspecified and the unknown
-- ones.
pub rule_kind_string_iff :
    (k : AlertKind) (name : RuleKind) → (rule_kind_string k ≡ some name) ↔ (k ≡ rule_kind_enum name)
unfolding rule_kind_string rule_kind_enum
rule_kind_string_iff k name = (to k name, λ e. rw e (back name))
  where
    to :
        (k : AlertKind) (name : RuleKind) → rule_kind_string k ≡ some name → k ≡ rule_kind_enum name
    to AlertKind.instance_down name e = ground arith
    to _ name e = ground arith

    back : (name : RuleKind) → rule_kind_string (rule_kind_enum name) ≡ some name
    back RuleKind.instance_down = refl
    back _ = refl

pub is_kind→eq : (k l : RuleKind) → is_kind k l ≡ true → k ≡ l
is_kind→eq k l h = numbered k ∙ ap named (==→eq _ _ h) ∙ sym (numbered l)
  where
    named : ℕ → RuleKind
    named n =
        if n == 0
        then RuleKind.instance_down
        else if n == 1
        then RuleKind.verification_failed
        else if n == 2
        then RuleKind.backup_failed
        else if n == 3
        then RuleKind.backup_missing
        else if n == 4
        then RuleKind.retention_blocked
        else if n == 5
        then RuleKind.storage_threshold
        else if n == 6
        then RuleKind.replication_lag
        else RuleKind.custom_promql

    numbered : (k : RuleKind) → k ≡ named (kind_number k)
    numbered RuleKind.instance_down = refl
    numbered _ = refl

is_subject→eq : (s t : Option ℕ) → is_subject s t ≡ true → s ≡ t
is_subject→eq none none h = refl
is_subject→eq (some m) (some n) h = ground arith
is_subject→eq none (some n) h = cc
is_subject→eq (some m) none h = cc

pub is_fingerprint→eq : (f g : Fingerprint) → is_fingerprint f g ≡ true → f ≡ g
is_fingerprint→eq f g h =
    ground (arith, is_kind→eq f.kind g.kind, is_subject→eq f.subject g.subject)

is_subject_refl : (s : Option ℕ) → is_subject s s ≡ true
is_subject_refl none = refl
is_subject_refl (some n) = ground arith

pub is_fingerprint_refl : (f : Fingerprint) → is_fingerprint f f ≡ true
is_fingerprint_refl f = ground (arith, is_subject_refl f.subject)

is_subject_sym : (s t : Option ℕ) → is_subject s t ≡ is_subject t s
is_subject_sym none none = refl
is_subject_sym (some m) (some n) = ground arith
is_subject_sym none (some n) = refl
is_subject_sym (some m) none = refl

pub is_kind_sym : (k l : RuleKind) → is_kind k l ≡ is_kind l k
is_kind_sym k l = equal_sym (kind_number k) (kind_number l)
  where
    equal_sym : (m n : ℕ) → (m == n) ≡ (n == m)
    equal_sym m n = ground arith

pub is_fingerprint_sym : (f g : Fingerprint) → is_fingerprint f g ≡ is_fingerprint g f
is_fingerprint_sym f g = rw (is_kind_sym f.kind g.kind, is_subject_sym f.subject g.subject)
