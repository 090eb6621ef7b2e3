-- ===== src/Authz/Enforce/Audited.antt =====
-- What a call leaves in the audit log, and which calls run.
use fleetward.Base.{
  if◌then◌else◌, ℕ, ◌≡◌, refl, ◌⊎◌, inl, inr, Bool, true, false, ◌||◌, List, ◌∷◌, Option, none,
  some, String, arith, Bool-cases, is_some,
}
use text.Mathlib.Text.{◌==◌ as str_eq}
use fleetward.Authz.Scope.{Rule, Directory, Request}
use fleetward.Authz.Principal.{Principal, is_authenticated}
use fleetward.Authz.Guard.{unauthenticated, permission_denied, internal, Decision, Verdict, check}
use fleetward.Authz.Guard.Refusals.{IsPlain, check-IsPlain, closed_by_default}
use fleetward.Authz.Enforce.{
  rule_of, resource_id, Entry, record_refusal, Store, Answer, responded, call_failed, refused,
  record_outcome, write_entry, answer_of, after_call, after_check, guarded,
}

abbrev pub is_response : {Resp : Type 0} → Answer Resp → Bool
is_response (responded resp) = true
is_response (call_failed code) = false
is_response (refused status) = false

IsPlain-denied :
    (rule : Rule) (v : Verdict) → IsPlain rule v → v.0.allowed ≡ false → is_some v.1 ≡ true
IsPlain-denied rule (d, none) allowed denied = absurd (ground arith)
IsPlain-denied rule (d, some status) plain denied = refl

module _ {Resp : Type 0} (created_by : Resp → String) (method : String) (rule : Rule)
    (id : String) where
  record_outcome-labels :
      (d : Decision) (result : String ⊎ Resp)
      → ((record_outcome created_by method rule id d result).action ≡ rule.action)
        × ((record_outcome created_by method rule id d result).resource_type ≡ rule.resource_type)
        × ((record_outcome created_by method rule id d result).succeeded
            ≡ is_response (answer_of result))
  unfolding record_outcome
  record_outcome-labels d (inl code) = (refl, refl, refl)
  record_outcome-labels d (inr resp) = elim (Bool-cases (str_eq (created_by resp) "")) [
    | inl nothing ↦ rw nothing (refl, refl, refl)
    | inr something ↦ elim (Bool-cases (str_eq id "")) [
      | inl unnamed ↦ simp (something, unnamed) (refl, refl, refl)
      | inr named ↦ simp (something, named) (refl, refl, refl)
    ]
  ]

write_entry_lem :
    (accepts : Entry → Bool) (p : Principal) (e : Entry) (log : List Entry)
    → str_eq p.tenant_id "" ≡ false
    → write_entry accepts (some p) e log ≡ (if accepts e then e ∷ log else log)
unfolding write_entry
write_entry_lem accepts p e log of_tenant = ground arith

module _ {World Resp : Type 0} where
  -- The log has one entry more, or is as it was if the INSERT of that entry fails. The entry is of the
  -- rule's action on the rule's type of resource, and says success exactly if the caller has a
  -- response.
  abbrev pub IsAudited : (Entry → Bool) → Rule → List Entry → Store World × Answer Resp → Type 0
  IsAudited accepts rule log (s, answer) =
      (e : Entry) × (s.log ≡ (if accepts e then e ∷ log else log))
      × (e.action ≡ rule.action)
      × (e.resource_type ≡ rule.resource_type)
      × (e.succeeded ≡ is_response answer)

  module _ (created_by : Resp → String) (accepts : Entry → Bool) (p : Principal) (method : String)
      (rule : Rule) (id : String) where
    after_call-IsAudited :
        (d : Decision) (log : List Entry) (done : World × (String ⊎ Resp))
        → str_eq p.tenant_id "" ≡ false
        → rule.is_mutating || rule.audit_read ≡ true
        → IsAudited accepts rule log
            (after_call created_by accepts (some p) method rule id d log done)
    after_call-IsAudited d log (world, result) of_tenant audited = rw audited (
      record_outcome created_by method rule id d result,
      write_entry_lem accepts p (record_outcome created_by method rule id d result) log of_tenant,
      (record_outcome-labels created_by method rule id d result).0,
      (record_outcome-labels created_by method rule id d result).1,
      (record_outcome-labels created_by method rule id d result).2,
    )

    after_check-IsAudited :
        (call : World → World × (String ⊎ Resp)) (s : Store World) (v : Verdict)
        → str_eq p.tenant_id "" ≡ false
        → rule.is_mutating || rule.audit_read ≡ true
        → IsPlain rule v
        → IsAudited accepts rule s.log
            (after_check created_by accepts (some p) method rule id call s v)
    unfolding record_refusal
    after_check-IsAudited call s (d, none) of_tenant audited plain =
        after_call-IsAudited d s.log (call s.world) of_tenant audited
    after_check-IsAudited call s (d, some unauthenticated) of_tenant audited plain = absurd plain
    after_check-IsAudited call s (d, some (permission_denied m)) of_tenant audited plain = (
      record_refusal method rule id d,
      write_entry_lem accepts p (record_refusal method rule id d) s.log of_tenant,
      refl,
      refl,
      refl,
    )
    after_check-IsAudited call s (d, some (internal m)) of_tenant audited plain = (
      record_refusal method rule id d,
      write_entry_lem accepts p (record_refusal method rule id d) s.log of_tenant,
      refl,
      refl,
      refl,
    )

  module _ (created_by : Resp → String) (accepts : Entry → Bool) (method : String) (rule : Rule)
      (id : String) where
    after_refusal-world :
        (q : Option Principal) (call : World → World × (String ⊎ Resp)) (s : Store World)
        (v : Verdict)
        → is_some v.1 ≡ true
        → ((after_check created_by accepts q method rule id call s v).0.world ≡ s.world)
          × (is_response (after_check created_by accepts q method rule id call s v).1 ≡ false)
    after_refusal-world q call s (d, none) denied = absurd (ground arith)
    after_refusal-world q call s (d, some unauthenticated) denied = (refl, refl)
    after_refusal-world q call s (d, some (permission_denied m)) denied = (refl, refl)
    after_refusal-world q call s (d, some (internal m)) denied = (refl, refl)

  module _ (created_by : Resp → String) (policies : String → Option Rule)
      (ranks : String → Option ℕ) (dir : Directory) (accepts : Entry → Bool)
      (call : Request → World → World × (String ⊎ Resp)) where
    -- Every request of an authenticated caller with a tenant, for a method that changes something, or
    -- whose policy asks for its reads to be recorded, leaves exactly one new entry in the audit log,
    -- or none where the INSERT of that entry fails, whether the guard refused it, could not decide,
    -- or let it through to a call that failed or succeeded. The entry has the action and the type of
    -- resource of the policy, and it says success exactly if the caller got a response.
    pub guarded-IsAudited :
        (p : Principal) (method : String) (req : Request) (rule : Rule) (s : Store World)
        → is_authenticated p ≡ true
        → str_eq p.tenant_id "" ≡ false
        → policies method ≡ some rule
        → rule.is_mutating || rule.audit_read ≡ true
        → IsAudited accepts rule s.log
            (guarded created_by policies ranks dir accepts call (some p) method req s)
    unfolding guarded
    guarded-IsAudited p method req rule s somebody of_tenant policy audited = rw policy (
        after_check-IsAudited created_by accepts p method rule (resource_id req (some rule))
          (call req) s (check policies ranks dir (some p) method req) of_tenant audited
          (check-IsPlain policies ranks dir p method req rule somebody policy))

    check-denied :
        (p : Option Principal) (method : String) (req : Request)
        → (check policies ranks dir p method req).0.allowed ≡ false
        → is_some (check policies ranks dir p method req).1 ≡ true
    check-denied none method req denied =
        (closed_by_default policies ranks dir none method req (inl refl)).1
    check-denied (some p) method req denied = elim (Bool-cases (is_authenticated p)) [
      | inr nobody ↦
          (closed_by_default policies ranks dir (some p) method req (inl (rw nobody refl))).1
      | inl somebody ↦ by_policy somebody (policies method) refl
    ]
      where
        by_policy :
            is_authenticated p ≡ true
            → (o : Option Rule) → policies method ≡ o
            → is_some (check policies ranks dir (some p) method req).1 ≡ true
        by_policy somebody none policy =
            (closed_by_default policies ranks dir (some p) method req (inr policy)).1
        by_policy somebody (some rule) policy =
            IsPlain-denied rule (check policies ranks dir (some p) method req)
              (check-IsPlain policies ranks dir p method req rule somebody policy) denied

    -- What the guard does not allow never runs: whoever calls, and whatever the call would have
    -- done, the world is as it was and the caller gets no response.
    pub denied_call_never_runs :
        (p : Option Principal) (method : String) (req : Request) (s : Store World)
        → (check policies ranks dir p method req).0.allowed ≡ false
        → ((guarded created_by policies ranks dir accepts call p method req s).0.world ≡ s.world)
          × (is_response (guarded created_by policies ranks dir accepts call p method req s).1
              ≡ false)
    unfolding guarded
    denied_call_never_runs p method req s denied =
        after_refusal-world created_by accepts method (rule_of (policies method))
          (resource_id req (policies method)) p (call req) s (check policies ranks dir p method req)
          (check-denied p method req denied)
