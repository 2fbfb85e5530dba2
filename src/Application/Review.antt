-- ===== src/Application/Review.antt =====
-- Approval and rejection in internal/application/service.go.
pub mod Outcomes
use review_workflow.Base.{
  not, ◌&&◌, String, ◌<>◌, ◌==◌, none, some, [], ◌∷◌, trim_space, if◌then◌else◌,
}
use review_workflow.Base.Int.{pos, incr}
use review_workflow.Domain.{
  Time, approved, rejected, other_status, is_pending_review, is_approved, is_rejected, Actor,
  Request,
}
use review_workflow.Application.Errors.{
  Result, ok, err, err_forbidden, err_conflict, wrap, is_not_found,
}
use review_workflow.Application.Monad.{
  Service, M, ◌>>=◌, ◌>>◌, pure, raise, call, attempt, now_utc, fresh_id,
}
use review_workflow.Application.Helpers.{
  can_review, fingerprint, decision_description, audit_for, ensure_idempotency,
}

pub record ReviewInput : Type 0 where
  pub comment : String

-- `domain.Request{}`. `zero_time` is Go's zero `time.Time`.
unfoldable pub zero_request : Time → Request
zero_request zero_time = record {
  id = "";
  type = "";
  target_resource = "";
  justification = "";
  requester_id = "";
  assigned_reviewer_id = "";
  status = other_status "";
  version = pos 0;
  reminder_count = pos 0;
  execution_attempts = pos 0;
  last_execution_error = "";
  created_at = zero_time;
  updated_at = zero_time;
  submitted_at = none;
  approved_at = none;
  reviewed_at = none;
  executed_at = none;
  last_reminded_at = none;
  next_execution_at = none;
}

-- The request once it has been decided at `at`.
unfoldable pub decide : String → Time → Request → Request
decide decision at req =
    let req' = record req { reviewed_at = some at; updated_at = at; version = incr req.version } in
    if decision == "approved"
    then record req' {
      status = approved;
      approved_at = some at;
      next_execution_at = some at;
      last_execution_error = "";
    }
    else record req' { status = rejected; next_execution_at = none }

module _ {S : Type 0} (svc : Service S) (zero_time : Time) where
  unfoldable pub ensure_review : String → String → String → String → M S (Unit {0})
  unfolding fingerprint ensure_idempotency
  ensure_review decision comment request_id key =
      ensure_idempotency svc ((decision <> ":") <> request_id) key request_id
        (fingerprint svc.runtime (decision ∷ comment ∷ []))

  -- A decision that has been taken before. The `err` that is returned at the end is that of
  -- `GetRequest`, which is nil: the one of `ensureIdempotency` is out of scope there.
  unfoldable pub review_decided : Request → Result (Unit {0}) → M S Request
  unfolding zero_request
  review_decided req (ok _) = pure req
  review_decided req (err e) =
      if is_not_found e.kind then pure req else pure (zero_request zero_time)

  -- The review record of a decision and its audit entry.
  unfoldable pub review_audited : Actor → String → String → String → Time → Request → M S Request
  unfolding audit_for decision_description
  review_audited actor request_id decision comment at req' = do
    id ← fresh_id svc.runtime "rev"
    call (
        svc.store.create_review (record {
          id = id;
          request_id = request_id;
          decision = decision;
          comment = trim_space comment;
          actor_id = actor.id;
          created_at = at;
        }))
    entry ← audit_for svc req' actor decision (decision_description decision comment)
    call (svc.store.append_audit entry)
    pure req'

  -- The update of a pending request, and its records.
  unfoldable pub review_pending : Actor → String → String → String → Request → M S Request
  unfolding decide review_audited
  review_pending actor request_id decision comment req = do
    at ← now_utc svc.runtime
    let req' = decide decision at req
    call (svc.store.update_request req' req.version)
    review_audited actor request_id decision comment at req'

  -- What follows `ensureIdempotency` on a pending request, by its error.
  unfoldable pub review_checked :
      Actor → String → String → String → Request → Result (Unit {0}) → M S Request
  unfolding review_pending
  review_checked actor request_id decision comment req (ok _) =
      review_pending actor request_id decision comment req
  review_checked actor request_id decision comment req (err e) =
      if is_not_found e.kind then call (svc.store.get_request request_id) else raise e

  -- A request that was approved or rejected before is given back, once the key is recorded.
  unfoldable pub review_again : String → String → String → String → Request → M S Request
  unfolding ensure_review review_decided
  review_again request_id key decision comment req = do
    checked ← attempt (ensure_review decision comment request_id key)
    review_decided req checked

  unfoldable pub review_first : Actor → String → String → String → String → Request → M S Request
  unfolding ensure_review review_checked
  review_first actor request_id key decision comment req = do
    checked ← attempt (ensure_review decision comment request_id key)
    review_checked actor request_id decision comment req checked

  unfoldable pub review_found : Actor → String → String → String → String → Request → M S Request
  unfolding can_review review_again review_first
  review_found actor request_id key decision comment req =
      if is_approved req.status && decision == "approved"
      then review_again request_id key decision comment req
      else if is_rejected req.status && decision == "rejected"
      then review_again request_id key decision comment req
      else if not (is_pending_review req.status)
      then raise (wrap err_conflict "request is not awaiting review")
      else if not (can_review actor req)
      then raise err_forbidden
      else if actor.id == req.requester_id
      then raise err_forbidden
      else review_first actor request_id key decision comment req

  unfoldable pub review_request : Actor → String → String → String → String → M S Request
  unfolding review_found
  review_request actor request_id key decision comment = do
    req ← call (svc.store.get_request request_id)
    review_found actor request_id key decision comment req

  unfoldable pub approve_request : Actor → String → String → String → M S Request
  unfolding review_request
  approve_request actor request_id key comment =
      review_request actor request_id key "approved" comment

  unfoldable pub reject_request : Actor → String → String → String → M S Request
  unfolding review_request
  reject_request actor request_id key comment =
      review_request actor request_id key "rejected" comment
