-- ===== src/Application/Contract/Review.antt =====
-- `ApproveRequest` and `RejectRequest` over a store with the contract.
use review_workflow.Base.{
  ◌≡◌, ◌≢◌, refl, Bool, true, false, not, String, ◌==◌, eq_iff, arith, if◌then◌else◌,
}
use review_workflow.Domain.{
  Status, Time, pending_review, approved, rejected, Actor, Request, is_pending_review,
}
use review_workflow.Application.Errors.{Result, ok, err}
use review_workflow.Application.Monad.{Service, World, M}
use review_workflow.Application.Helpers.{can_review}
use review_workflow.Application.Authority.{MayDecide, can_review-MayDecide}
use review_workflow.Application.Review.{
  decide, review_request, review_found, review_again, review_first, review_checked, review_audited,
  review_pending, review_decided, ensure_review, approve_request, reject_request,
}
use review_workflow.Application.Contract.{Agrees}
use review_workflow.Application.Contract.Protocol.{Protocol}
use review_workflow.Application.Contract.Keeps.{
  Keeps, keeps_rules, Keeps-attempt, Keeps-raise, Does, Does-Keeps, Does-if, Does->>=, Does-revise,
}
use review_workflow.Application.Contract.Helpers.{
  Named, Revised, Keeps-get, Keeps-audit_for, Keeps-ensure_idempotency,
}

-- A decision on a pending request, by somebody who may review it and did not ask for it.
abbrev pub ReviewChange : Status → Actor → Request → Request → Type 0
ReviewChange status actor r r' =
    MayDecide actor r
    × (actor.id ≢ r.requester_id)
    × (r.status ≡ pending_review)
    × (r'.status ≡ status)
    × Revised r r'

-- The status that a decision leads to.
abbrev pub decided_status : String → Status
decided_status decision = if decision == "approved" then approved else rejected

module _ {S : Type 0} (svc : Service S) (zero_time : Time) (p : Protocol svc.store) where
  Keeps-review_audited :
      (actor : Actor) (id decision comment : String) (at : Time) (req : Request)
      → Keeps p (review_audited svc zero_time actor id decision comment at req)
  unfolding review_audited
  Keeps-review_audited actor id decision comment at req =
      search (keeps_rules, Keeps-audit_for svc p, p.audit_waits, p.review_waits) depth 10

  decide-ReviewChange :
      (actor : Actor) (decision : String) (at : Time) (req new : Request)
      → can_review actor req ≡ true
      → (actor.id == req.requester_id) ≡ false
      → is_pending_review req.status ≡ true
      → Agrees new (decide decision at req)
      → ReviewChange (decided_status decision) actor req new
  unfolding decide
  decide-ReviewChange actor decision at req new may apart pending agrees = (
    can_review-MayDecide actor req may,
    (λ same. cc (apart, (eq_iff actor.id req.requester_id).1 same)),
    ground arith,
    ground (arith, agrees.status_kept),
    record {
      same_requester = ground (arith, agrees.requester_kept);
      same_type = ground (arith, agrees.type_kept);
      same_target = ground (arith, agrees.target_kept);
      same_justification = ground (arith, agrees.justification_kept);
      bumped = ground (arith, agrees.version_kept);
    },
  )

  Keeps-ensure_review :
      (decision comment id key : String)
      → Keeps p (ensure_review svc zero_time decision comment id key)
  unfolding ensure_review
  Keeps-ensure_review decision comment id key = Keeps-ensure_idempotency svc p _ _ _ _

  Keeps-review_decided :
      (req : Request) (checked : Result (Unit {0}))
      → Keeps p (review_decided svc zero_time req checked)
  unfolding review_decided
  Keeps-review_decided req (ok u) = search keeps_rules
  Keeps-review_decided req (err e) = search keeps_rules

  Keeps-review_again :
      (id key decision comment : String) (req : Request)
      → Keeps p (review_again svc zero_time id key decision comment req)
  unfolding review_again
  Keeps-review_again id key decision comment req =
      search (keeps_rules, Keeps-ensure_review, Keeps-review_decided)

  decide_id : (decision : String) (at : Time) (r : Request) → (decide decision at r).id ≡ r.id
  unfolding decide
  decide_id decision at r = ground arith

  module _ (actor : Actor) (id key decision comment : String) where
    abbrev DoesReview : {A : Type 0} → M S A → World S → Type 0
    DoesReview = Does p (Named id (ReviewChange (decided_status decision) actor))

    Does-review_pending :
        (req : Request) (w : World S)
        → p.Knows req w.state
        → req.id ≡ id
        → can_review actor req ≡ true
        → (actor.id == req.requester_id) ≡ false
        → is_pending_review req.status ≡ true
        → DoesReview (review_pending svc zero_time actor id decision comment req) w
    unfolding review_pending
    Does-review_pending req w known is may apart pending =
        Does-revise p _ svc.runtime (λ at. decide decision at req)
          (λ at. review_audited svc zero_time actor id decision comment at (decide decision at req))
          req w known (λ at. decide_id decision at req)
          (λ at new agrees.
            (is, decide-ReviewChange actor decision at req new may apart pending agrees))
          (λ at. Keeps-review_audited actor id decision comment at (decide decision at req))

    Does-review_checked :
        (req : Request) (checked : Result (Unit {0})) (w : World S)
        → p.Knows req w.state
        → req.id ≡ id
        → can_review actor req ≡ true
        → (actor.id == req.requester_id) ≡ false
        → is_pending_review req.status ≡ true
        → DoesReview (review_checked svc zero_time actor id decision comment req checked) w
    unfolding review_checked
    Does-review_checked req (ok u) w known is may apart pending =
        Does-review_pending req w known is may apart pending
    Does-review_checked req (err e) w known is may apart pending =
        Does-Keeps p _ _ w (search (keeps_rules, Keeps-get svc p))

    Does-review_first :
        (req : Request) (w : World S)
        → p.Knows req w.state
        → req.id ≡ id
        → can_review actor req ≡ true
        → (actor.id == req.requester_id) ≡ false
        → is_pending_review req.status ≡ true
        → DoesReview (review_first svc zero_time actor id key decision comment req) w
    unfolding review_first
    Does-review_first req w known is may apart pending =
        Does->>= p _ _ _ w (Keeps-attempt p _ (Keeps-ensure_review decision comment id key))
          (λ v checked e same.
            Does-review_checked req checked _ (p.later req _ _ same known) is may apart pending)

    not-false : (b : Bool) → not b ≡ false → b ≡ true
    not-false true h = refl
    not-false false h = cc

    Does-review_found :
        (req : Request) (w : World S)
        → p.Knows req w.state
        → req.id ≡ id
        → DoesReview (review_found svc zero_time actor id key decision comment req) w
    unfolding review_found
    Does-review_found req w held is =
        search (Does-if, Does-Keeps, Keeps-raise, Keeps-review_again, Does-review_first, not-false)
          depth 14

    Does-review_request :
        (w : World S) → DoesReview (review_request svc zero_time actor id key decision comment) w
    unfolding review_request
    Does-review_request w = Does->>= p _ _ _ w (Keeps-get svc p id) (λ v req found same.
        let (known, is) = p.gets id _ req v found in Does-review_found req _ known is)

  module _ (actor : Actor) (id key comment : String) (w : World S) where
    pub Does-approve_request :
        Does p
          (Named id (ReviewChange approved actor))
          (approve_request svc zero_time actor id key comment)
          w
    unfolding approve_request
    Does-approve_request = Does-review_request actor id key "approved" comment w

    pub Does-reject_request :
        Does p
          (Named id (ReviewChange rejected actor))
          (reject_request svc zero_time actor id key comment)
          w
    unfolding reject_request
    Does-reject_request = Does-review_request actor id key "rejected" comment w
