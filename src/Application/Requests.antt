-- ===== src/Application/Requests.antt =====
-- Drafts, reads and submission in internal/application/service.go.
pub mod Replay
pub mod Consumed
pub mod Visibility
use review_workflow.Base.{
  not, ◌||◌, String, ◌<>◌, ◌==◌, Option, none, some, List, trim_space, if◌then◌else◌,
}
use review_workflow.Base.Int.{pos, incr}
use review_workflow.Domain.{
  Time, Role, employee, reviewer, admin, other_role, draft, pending_review, is_draft, Actor,
  Request, AuditEntry, IdempotencyRecord, RequestFilter, validate_actor,
}
use review_workflow.Application.Errors.{
  Error, Result, ok, err, err_invalid_input, err_forbidden, err_conflict, err_idempotency_key_used,
  wrap, is_not_found, is_conflict,
}
use review_workflow.Application.Monad.{
  Service, M, ◌>>=◌, ◌>>◌, pure, raise, call, attempt, guard, now_utc, fresh_id,
}
use review_workflow.Application.Helpers.{
  can_view, system_actor, audit_for, require_owned_or_admin, ensure_idempotency,
}

pub record CreateDraftInput : Type 0 where
  pub type : String
  pub target_resource : String
  pub justification : String

-- `domain.ValidateActor`, its error wrapped.
abbrev pub check_actor : {S : Type 0} → Service S → Actor → M S (Unit {0})
check_actor svc actor w = elim (validate_actor svc.runtime.quote actor) [
  | none ↦ (ok tt, w)
  | some message ↦ (err (wrap err_invalid_input message), w)
]

-- The request once it has been submitted at `at`.
unfoldable pub submit : String → Time → Request → Request
submit default_reviewer at req = record req {
  status = pending_review;
  assigned_reviewer_id = default_reviewer;
  submitted_at = some at;
  updated_at = at;
  version = incr req.version;
}

module _ {S : Type 0} (svc : Service S) where
  unfoldable pub create_draft : Actor → CreateDraftInput → M S Request
  unfolding validate_actor audit_for
  create_draft actor input = do
    check_actor svc actor
    guard
        (not (
          trim_space input.type == ""
          || trim_space input.target_resource == ""
          || trim_space input.justification == ""))
        (wrap err_invalid_input "type, target_resource, and justification are required")
    at ← now_utc svc.runtime
    id ← fresh_id svc.runtime "req"
    let req : Request = record {
      id = id;
      type = trim_space input.type;
      target_resource = trim_space input.target_resource;
      justification = trim_space input.justification;
      requester_id = actor.id;
      assigned_reviewer_id = "";
      status = draft;
      version = pos 1;
      reminder_count = pos 0;
      execution_attempts = pos 0;
      last_execution_error = "";
      created_at = at;
      updated_at = at;
      submitted_at = none;
      approved_at = none;
      reviewed_at = none;
      executed_at = none;
      last_reminded_at = none;
      next_execution_at = none;
    }
    call (svc.store.create_request req)
    entry ← audit_for svc req actor "draft_created" "draft request created"
    call (svc.store.append_audit entry)
    pure req

  unfoldable pub get_request : Actor → String → M S Request
  unfolding can_view
  get_request actor request_id = do
    req ← call (svc.store.get_request request_id)
    if not (can_view actor req) then raise err_forbidden else pure req

  -- The `switch` on the role, `none` for its default.
  unfoldable pub effective_filter : Role → Actor → RequestFilter → Option RequestFilter
  effective_filter employee actor filter =
      some (record filter { requester_id = actor.id; reviewer_id = "" })
  effective_filter reviewer actor filter =
      some (if filter.requester_id == "" then record filter { reviewer_id = actor.id } else filter)
  effective_filter admin actor filter = some filter
  effective_filter (other_role _) actor filter = none

  unfoldable pub list_requests : Actor → RequestFilter → M S (List Request)
  unfolding validate_actor effective_filter
  list_requests actor filter = do
    check_actor svc actor
    elim (effective_filter actor.role actor filter) [
      | none ↦ raise err_forbidden
      | some filter' ↦ call (svc.store.list_requests filter')
    ]

  unfoldable pub list_audit : Actor → String → M S (List AuditEntry)
  unfolding get_request
  list_audit actor request_id = do
    req ← get_request actor request_id
    call (svc.store.list_audit req.id)

  -- The audit entries of a submission.
  unfoldable pub submit_audited : Actor → Request → M S Request
  unfolding audit_for
  submit_audited actor req' = do
    entry ← audit_for svc req' actor "submitted" "request submitted for review"
    call (svc.store.append_audit entry)
    entry' ← audit_for svc req' system_actor "review_assigned" "request assigned to reviewer"
    call (svc.store.append_audit entry')
    pure req'

  -- The update of a draft once its key has been recorded.
  unfoldable pub submit_draft : Actor → Request → M S Request
  unfolding submit submit_audited
  submit_draft actor req = do
    guard (is_draft req.status) (wrap err_conflict "only draft requests can be submitted")
    at ← now_utc svc.runtime
    let req' = submit svc.default_reviewer_id at req
    call (svc.store.update_request req' req.version)
    submit_audited actor req'

  -- The record that another call has created meanwhile. If it cannot be read, the first error `e`
  -- is returned.
  unfoldable pub submit_raced : Actor → String → Error → Result IdempotencyRecord → M S Request
  submit_raced actor request_id e (err _) = raise e
  submit_raced actor request_id e (ok found) =
      if not (found.fingerprint == actor.id)
      then raise err_idempotency_key_used
      else call (svc.store.get_request request_id)

  -- What follows `ensureIdempotency`, by its error.
  unfoldable pub submit_checked :
      Actor → String → String → Request → Result (Unit {0}) → M S Request
  unfolding submit_draft submit_raced
  submit_checked actor request_id key req (ok _) = submit_draft actor req
  submit_checked actor request_id key req (err e) =
      if is_not_found e.kind
      then call (svc.store.get_request request_id)
      else if not (is_conflict e.kind)
      then raise e
      else do
        found ← attempt (call (svc.store.get_idempotency ("submit:" <> request_id) key))
        submit_raced actor request_id e found

  unfoldable pub submit_request : Actor → String → String → M S Request
  unfolding require_owned_or_admin ensure_idempotency submit_checked
  submit_request actor request_id key = do
    req ← require_owned_or_admin svc actor request_id
    checked ← attempt (ensure_idempotency svc ("submit:" <> request_id) key request_id actor.id)
    submit_checked actor request_id key req checked
