-- ===== src/Workflow/Runs/History.antt =====
-- What becomes of one request over a sequence of calls, by the state machine of README.md with its
-- retries.
use review_workflow.Base.{
  ◌≡◌, refl, sym, ap, ◌∙◌, true, false, Bool, String-cases, none, some, String, List, lookup,
  insert, lookup-insert_self, lookup-insert_ne, inl, inr,
}
use mathlib.Core.Path.{subst}
use mathlib.Core.Bool.{false≢true}
use mathlib.Core.Option.{some-injective}
use review_workflow.Base.Int.{ℤ, pos, ◌<ℤ◌}
use review_workflow.Domain.{
  Time, Status, Request, AuditEntry, draft, pending_review, approved, rejected, executed,
  execution_failed,
}
use review_workflow.Repository.Memory.{Memory}
use review_workflow.Application.Monad.{Service, World}
use review_workflow.Workflow.{
  SameIdentity, Move, submit, approve, reject, succeed, fail, remind, EffectOf, EffectsOf, quiet,
  create, move, done, next,
}
use review_workflow.Workflow.Consistent.{IsConsistent}
use review_workflow.Workflow.Runs.{Call, run, AllFresh}
use review_workflow.Workflow.Runs.Laws.{run-Effects}

-- The arrows of the state machine, with the retries.
pub data Arrow : Status → Status → Type 0 where
  submission : Arrow draft pending_review
  approval : Arrow pending_review approved
  rejection : Arrow pending_review rejected
  execution : Arrow approved executed
  failure : Arrow approved execution_failed
  late_execution : Arrow execution_failed executed
  repeated_failure : Arrow execution_failed execution_failed

pub data Leads (a : Status) : Status → Type 0 where
  stay : Leads a a
  step : {b c : Status} → Leads a b → Arrow b c → Leads a c

Leads-trans : {a b c : Status} → Leads a b → Leads b c → Leads a c
Leads-trans l stay = l
Leads-trans l (step m e) = step (Leads-trans l m) e

abbrev pub is_closed : Status → Bool
is_closed rejected = true
is_closed executed = true
is_closed _ = false

pub record Follows (r r' : Request) : Type 0 where
  pub same_id : r'.id ≡ r.id
  pub same_type : r'.type ≡ r.type
  pub same_target : r'.target_resource ≡ r.target_resource
  pub same_justification : r'.justification ≡ r.justification
  pub same_requester : r'.requester_id ≡ r.requester_id
  pub same_creation : r'.created_at ≡ r.created_at
  pub leads : Leads r.status r'.status
  pub closed : is_closed r.status ≡ true → r' ≡ r

Follows-refl : (r : Request) → Follows r r
Follows-refl r = record {
  same_id = refl;
  same_type = refl;
  same_target = refl;
  same_justification = refl;
  same_requester = refl;
  same_creation = refl;
  leads = stay;
  closed = λ _. refl;
}

Follows-trans : (p q r : Request) → Follows p q → Follows q r → Follows p r
Follows-trans p q r f g = record {
  same_id = g.same_id ∙ f.same_id;
  same_type = g.same_type ∙ f.same_type;
  same_target = g.same_target ∙ f.same_target;
  same_justification = g.same_justification ∙ f.same_justification;
  same_requester = g.same_requester ∙ f.same_requester;
  same_creation = g.same_creation ∙ f.same_creation;
  leads = Leads-trans f.leads g.leads;
  closed = λ h. g.closed (ap (λ x. is_closed x.status) (f.closed h) ∙ h) ∙ f.closed h;
}

arrow : {a b c d : Status} → a ≡ c → b ≡ d → Arrow c d → Leads a b
arrow p q e = rw (p, q) (step stay e)

moved :
    (r r' : Request)
    → SameIdentity r r'
    → Leads r.status r'.status
    → is_closed r.status ≡ false
    → Follows r r'
moved r r' same l open_ = record {
  same_id = same.id_same;
  same_type = same.type_same;
  same_target = same.target_same;
  same_justification = same.justification_same;
  same_requester = same.requester_same;
  same_creation = same.created_same;
  leads = l;
  closed = λ h. absurd (false≢true (sym open_ ∙ h));
}

module _ (reviewer_id : String) (max : ℤ) (r r' : Request) where
  Move-Follows : {es : List AuditEntry} → Move reviewer_id max r r' es → Follows r r'
  Move-Follows (submit _ _ same was now_ _ _ _ _ _ _) =
      moved r r' same (arrow was now_ submission) (ap is_closed was)
  Move-Follows (approve _ same was now_ _ _ _) =
      moved r r' same.identity (arrow was now_ approval) (ap is_closed was)
  Move-Follows (reject _ same was now_ _ _ _) =
      moved r r' same.identity (arrow was now_ rejection) (ap is_closed was)
  Move-Follows (succeed _ same (inl was) now_ _ _ _) =
      moved r r' same.identity (arrow was now_ execution) (ap is_closed was)
  Move-Follows (succeed _ same (inr was) now_ _ _ _) =
      moved r r' same.identity (arrow was now_ late_execution) (ap is_closed was)
  Move-Follows (fail _ same (inl was) now_ _ _ _) =
      moved r r' same.identity (arrow was now_ failure) (ap is_closed was)
  Move-Follows (fail _ same (inr was) now_ _ _ _) =
      moved r r' same.identity (arrow was now_ repeated_failure) (ap is_closed was)
  Move-Follows (remind _ same was now_ _ _ _) =
      moved r r' same.identity (subst (Leads r.status) (was ∙ sym now_) stay) (ap is_closed was)

module _ (svc : Service Memory) (k : String) where
  -- The request under `k`, after.
  abbrev Continues : Request → Memory → Type 0
  Continues r s = (r' : Request) × (lookup k s.requests ≡ some r') × Follows r r'

  Effect-Continues :
      {s s' : Memory} (r : Request)
      → EffectOf svc s s'
      → lookup k s.requests ≡ some r
      → Continues r s'
  Effect-Continues r (quiet same _) stored = (r, ap (lookup k) same ∙ stored, Follows-refl r)
  Effect-Continues {s} {s'} r (create q e new absent changed trail) stored =
      elim (String-cases q.id k) [
        | inl here ↦
            let clash : none ≡ some r = sym absent ∙ ap (λ j. lookup j s.requests) here ∙ stored in
            cc
        | inr apart ↦ (
          r,
          ap (lookup k) changed ∙ lookup-insert_ne q.id k q s.requests apart ∙ stored,
          Follows-refl r,
        )
      ]
  Effect-Continues {s} {s'} r (move q q' es m found changed trail) stored =
      elim (String-cases q.id k) [
        | inl here ↦
            let e : q ≡ r =
              some-injective q r (sym found ∙ ap (λ j. lookup j s.requests) here ∙ stored) in
            (
              q',
              ap (lookup k) changed
                  ∙ ap (λ j. lookup j (insert q.id q' s.requests)) (sym here)
                  ∙ lookup-insert_self q.id q' s.requests,
              subst (λ x. Follows x q') e (Move-Follows _ _ q q' m),
            )
        | inr apart ↦ (
          r,
          ap (lookup k) changed ∙ lookup-insert_ne q.id k q' s.requests apart ∙ stored,
          Follows-refl r,
        )
      ]

  Effects-Continues :
      {s s' : Memory} (r : Request)
      → EffectsOf svc s s'
      → lookup k s.requests ≡ some r
      → Continues r s'
  Effects-Continues r done stored = (r, stored, Follows-refl r)
  Effects-Continues r (next es e) stored =
      let (q, found, f) = Effects-Continues r es stored in
      let (p, last, g) = Effect-Continues q e found in (p, last, Follows-trans r q p f g)

module _ (svc : Service Memory) (zero_time : Time)
    (positive : pos 0 <ℤ svc.execution_max_attempts) where
  -- Whatever calls are made on consistent data, a stored request stays stored under its key; its
  -- identifier, type, target, justification, requester and time of creation stay, its status moves
  -- along the arrows of the state machine only, and if it was rejected or executed nothing of it
  -- changes. No identifier is drawn that is in use, and the bound on attempts is positive.
  pub run-Follows :
      (cs : List Call) (w : World Memory)
      → IsConsistent svc.execution_max_attempts w.state
      → AllFresh svc zero_time cs w
      → (k : String) (r : Request) → lookup k w.state.requests ≡ some r
      → (r' : Request) × (lookup k (run svc zero_time cs w).state.requests ≡ some r') × Follows r r'
  run-Follows cs w i fresh k r stored =
      Effects-Continues svc k r (run-Effects svc zero_time positive cs w i fresh) stored
