-- ===== src/Application/Contract/Submit.antt =====
-- `SubmitRequest` over a store with the contract.
use mathlib.Core.Path.{subst}
use review_workflow.Base.{refl, ◌≡◌, true, ◌||◌, String, ◌==◌, ◌<>◌, arith}
use review_workflow.Domain.{
  Time, draft, pending_review, Actor, Request, is_admin, IdempotencyRecord, is_draft,
}
use review_workflow.Application.Errors.{Error, Result, ok, err}
use review_workflow.Application.Monad.{Service, World}
use review_workflow.Application.Helpers.{require_owned_or_admin}
use review_workflow.Application.Requests.{
  submit, submit_request, submit_audited, submit_draft, submit_raced, submit_checked,
}
use review_workflow.Application.Contract.{Agrees}
use review_workflow.Application.Contract.Protocol.{Protocol}
use review_workflow.Application.Contract.Keeps.{
  Keeps, keeps_rules, Keeps-attempt, Keeps-guard, Does, Does-Keeps, Does->>=, Does-revise,
}
use review_workflow.Application.Contract.Helpers.{
  Named, Revised, Keeps-get, Keeps-audit_for, Keeps-ensure_idempotency, Keeps-require, guard-passed,
}

-- A draft becomes a pending request, by its owner or an admin.
abbrev pub SubmitChange : Actor → Request → Request → Type 0
SubmitChange actor r r' =
    ((is_admin actor.role || r.requester_id == actor.id) ≡ true)
    × (r.status ≡ draft)
    × (r'.status ≡ pending_review)
    × Revised r r'

module _ {S : Type 0} (svc : Service S) (p : Protocol svc.store) where
  submit-SubmitChange :
      (actor : Actor) (at : Time) (req new : Request)
      → (is_admin actor.role || req.requester_id == actor.id) ≡ true
      → is_draft req.status ≡ true
      → Agrees new (submit svc.default_reviewer_id at req)
      → SubmitChange actor req new
  unfolding submit
  submit-SubmitChange actor at req new may fresh agrees = (
    may,
    ground arith,
    agrees.status_kept,
    record {
      same_requester = agrees.requester_kept;
      same_type = agrees.type_kept;
      same_target = agrees.target_kept;
      same_justification = agrees.justification_kept;
      bumped = agrees.version_kept;
    },
  )

  submit_id : (at : Time) (req : Request) → (submit svc.default_reviewer_id at req).id ≡ req.id
  unfolding submit
  submit_id at req = refl

  Keeps-submit_audited : (actor : Actor) (req : Request) → Keeps p (submit_audited svc actor req)
  unfolding submit_audited
  Keeps-submit_audited actor req =
      search (keeps_rules, Keeps-audit_for svc p, p.audit_waits) depth 10

  Does-submit_draft :
      (actor : Actor) (id : String) (req : Request) (w : World S)
      → req.id ≡ id
      → p.Knows req w.state
      → (is_admin actor.role || req.requester_id == actor.id) ≡ true
      → Does p (Named id (SubmitChange actor)) (submit_draft svc actor req) w
  unfolding submit_draft
  Does-submit_draft actor id req w is held may =
      Does->>= p (Named id (SubmitChange actor)) _ _ w (Keeps-guard p _ _) (λ v u passed same.
        Does-revise p (Named id (SubmitChange actor)) svc.runtime
          (λ at. submit svc.default_reviewer_id at req)
          (λ at. submit_audited svc actor (submit svc.default_reviewer_id at req)) req _ held
          (λ at. submit_id at req)
          (λ at new agrees. (
            is,
            submit-SubmitChange actor at req new may (guard-passed svc p _ _ w u passed) agrees,
          ))
          (λ at. Keeps-submit_audited actor (submit svc.default_reviewer_id at req)))

  require-got :
      (actor : Actor) (id : String) (w : World S) (req : Request)
      → (require_owned_or_admin svc actor id w).0 ≡ ok req
      → ((svc.store.get_request id w.state).0 ≡ ok req)
        × ((svc.store.get_request id w.state).1 ≡ (require_owned_or_admin svc actor id w).1.state)
        × ((is_admin actor.role || req.requester_id == actor.id) ≡ true)
  unfolding require_owned_or_admin
  require-got actor id w req found = ground arith

  require-Knows :
      (actor : Actor) (id : String) (w : World S) (req : Request)
      → p.Good w.state
      → (require_owned_or_admin svc actor id w).0 ≡ ok req
      → p.Knows req (require_owned_or_admin svc actor id w).1.state
        × (req.id ≡ id)
        × ((is_admin actor.role || req.requester_id == actor.id) ≡ true)
  require-Knows actor id w req v found =
      let (got, same, may) = require-got actor id w req found in
      let (known, is) = p.gets id w.state req v got in (subst (p.Knows req) same known, is, may)

  Keeps-submit_raced :
      (actor : Actor) (id : String) (e : Error) (found : Result IdempotencyRecord)
      → Keeps p (submit_raced svc actor id e found)
  unfolding submit_raced
  Keeps-submit_raced actor id e (ok found) = search (keeps_rules, Keeps-get svc p)
  Keeps-submit_raced actor id e (err e') = search keeps_rules

  Does-submit_checked :
      (actor : Actor) (id key : String) (req : Request) (checked : Result (Unit {0})) (w : World S)
      → req.id ≡ id
      → p.Knows req w.state
      → (is_admin actor.role || req.requester_id == actor.id) ≡ true
      → Does p (Named id (SubmitChange actor)) (submit_checked svc actor id key req checked) w
  unfolding submit_checked
  Does-submit_checked actor id key req (ok u) w is held may =
      Does-submit_draft actor id req w is held may
  Does-submit_checked actor id key req (err e) w is held may =
      Does-Keeps p (Named id (SubmitChange actor)) _ w
        (search (keeps_rules, Keeps-get svc p, Keeps-submit_raced, p.key_read_waits) depth 10)

  pub Does-submit_request :
      (actor : Actor) (id key : String) (w : World S)
      → Does p (Named id (SubmitChange actor)) (submit_request svc actor id key) w
  unfolding submit_request
  Does-submit_request actor id key w =
      Does->>= p (Named id (SubmitChange actor)) _ _ w (Keeps-require svc p actor id)
        (λ v req found same.
          let (known, is, may) = require-Knows actor id w req v found in
          Does->>= p (Named id (SubmitChange actor)) _ _ _
            (Keeps-attempt p _ (Keeps-ensure_idempotency svc p ("submit:" <> id) key id actor.id))
            (λ v' checked e same'.
              Does-submit_checked actor id key req checked _ is (p.later req _ _ same' known) may))
