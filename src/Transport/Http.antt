-- ===== src/Transport/Http.antt =====
-- internal/transport/http/server.go. Gin's part is a parameter: `HttpRequest` holds what it hands to
-- a handler, with the outcome of `ShouldBindJSON` for each type of body, and `Endpoint` names the
-- route that it has chosen. The handlers' early returns are those of the action that they answer.
pub mod Answers
pub mod Statuses
pub mod Routes
pub mod Change
pub mod Among
use review_workflow.Base.{
  ℕ, Bool, String, Option, none, some, List, ◌==◌, trim_space, if◌then◌else◌,
}
use review_workflow.Domain.{
  Actor, AuditEntry, Request, RequestFilter, role_of, status_of, validate_actor, Time,
}
use review_workflow.Application.Errors.{
  Kind, invalid_input, unauthorized, forbidden, not_found, conflict, idempotency_key_used, other,
  Error, Result, ok, err, err_invalid_input, err_unauthorized, wrap,
}
use review_workflow.Application.Monad.{Service, World, M, ◌>>=◌, ◌>>◌, pure, raise}
use review_workflow.Application.Requests.{
  CreateDraftInput, create_draft, get_request, list_requests, list_audit, submit_request,
}
use review_workflow.Application.Review.{ReviewInput, approve_request, reject_request}
use review_workflow.Application.Execution.{ExecutionResultInput, record_execution_result}

-- What `ShouldBindJSON` gives: the input, or the text of its error.
pub data Bound (A : Type 0) : Type 0 where
  bound : A → Bound A
  unbound : String → Bound A

pub record HttpRequest : Type 0 where
  pub header : String → String
  pub query : String → String
  pub param : String → String
  pub draft_input : Bound CreateDraftInput
  pub review_input : Bound ReviewInput
  pub result_input : Bound ExecutionResultInput

pub data Body : Type 0 where
  request_body : Request → Body
  requests_body : List Request → Body
  entries_body : List AuditEntry → Body
  status_body error_body : String → Body

pub record Response : Type 0 where
  pub status : ℕ
  pub body : Body

pub record Server (S : Type 0) : Type 0 where
  pub service : Service S
  pub ready : Option (M S (Unit {0}))
  pub service_name : String

unfoldable pub new_server : {S : Type 0} → Service S → Option (M S (Unit {0})) → String → Server S
new_server service ready service_name = record {
  service = service;
  ready = ready;
  service_name = if trim_space service_name == "" then "review-workflow" else service_name;
}

-- The `switch` of `writeError`.
unfoldable pub error_status : Kind → ℕ
error_status invalid_input = 400
error_status unauthorized = 401
error_status forbidden = 403
error_status not_found = 404
error_status conflict = 409
error_status idempotency_key_used = 409
error_status other = 500

unfoldable pub write_error : Error → Response
unfolding error_status
write_error e = record { status = error_status e.kind; body = error_body e.message }

-- The answer to an action: `writeError` if it fails, and `c.JSON` otherwise.
unfoldable pub answer : {S A : Type 0} → ℕ → (A → Body) → M S A → World S → Response × World S
unfolding write_error
answer status body action w =
    let (result, w') = action w in
    elim result [
      | ok a ↦ (record { status = status; body = body a }, w')
      | err e ↦ (write_error e, w')
    ]

-- The actor that the headers name.
unfoldable pub named_actor : HttpRequest → Actor
unfolding role_of
named_actor req = record {
  id = trim_space (req.header "X-Actor-Id");
  role = role_of (trim_space (req.header "X-Actor-Role"));
}

unfoldable pub bind : {S A : Type 0} → Bound A → M S A
bind (bound input) = pure input
bind (unbound text) = raise (wrap err_invalid_input text)

unfoldable pub filter_of : HttpRequest → RequestFilter
unfolding status_of
filter_of req = record {
  requester_id = trim_space (req.query "requester_id");
  reviewer_id = trim_space (req.query "reviewer_id");
  status = status_of (trim_space (req.query "status"));
}

abbrev pub key_of : HttpRequest → String
key_of req = trim_space (req.header "Idempotency-Key")

pub data Endpoint : Type 0 where
  health ready_check create_requests list_all get_one submit_one approve_one reject_one
        execution_result audit_of :
      Endpoint

module _ {S : Type 0} (server : Server S) (zero_time : Time) (req : HttpRequest) where
  unfoldable pub actor_from_request : M S Actor
  unfolding named_actor
  actor_from_request w = elim (validate_actor server.service.runtime.quote (named_actor req)) [
    | none ↦ (ok (named_actor req), w)
    | some message ↦ (err (wrap err_unauthorized message), w)
  ]

  unfoldable pub handle_ready : World S → Response × World S
  unfolding answer
  handle_ready = elim server.ready [
    | none ↦ answer 200 status_body (pure "ready")
    | some check ↦ answer 200 status_body (check >> pure "ready")
  ]

  unfoldable pub handle_create_request : World S → Response × World S
  unfolding answer actor_from_request bind
  handle_create_request = answer 201 request_body do
    actor ← actor_from_request
    input ← bind req.draft_input
    create_draft server.service actor input

  unfoldable pub handle_list_requests : World S → Response × World S
  unfolding answer actor_from_request filter_of
  handle_list_requests =
      answer 200 requests_body
        do actor ← actor_from_request; list_requests server.service actor (filter_of req)

  unfoldable pub handle_get_request : World S → Response × World S
  unfolding answer actor_from_request
  handle_get_request =
      answer 200 request_body
        do actor ← actor_from_request; get_request server.service actor (req.param "id")

  unfoldable pub handle_submit_request : World S → Response × World S
  unfolding answer actor_from_request
  handle_submit_request = answer 200 request_body do
    actor ← actor_from_request
    submit_request server.service actor (req.param "id") (key_of req)

  unfoldable pub handle_approve_request : World S → Response × World S
  unfolding answer actor_from_request bind
  handle_approve_request = answer 200 request_body do
    actor ← actor_from_request
    input ← bind req.review_input
    approve_request server.service zero_time actor (req.param "id") (key_of req) input.comment

  unfoldable pub handle_reject_request : World S → Response × World S
  unfolding answer actor_from_request bind
  handle_reject_request = answer 200 request_body do
    actor ← actor_from_request
    input ← bind req.review_input
    reject_request server.service zero_time actor (req.param "id") (key_of req) input.comment

  unfoldable pub handle_execution_result : World S → Response × World S
  unfolding answer actor_from_request bind
  handle_execution_result = answer 200 request_body do
    actor ← actor_from_request
    input ← bind req.result_input
    record_execution_result server.service actor (req.param "id") input.success input.error

  unfoldable pub handle_audit : World S → Response × World S
  unfolding answer actor_from_request
  handle_audit =
      answer 200 entries_body
        do actor ← actor_from_request; list_audit server.service actor (req.param "id")

  -- The routes of `Routes`, without those of the user interface.
  unfoldable pub handle : Endpoint → World S → Response × World S
  handle health w = (record { status = 200; body = status_body "ok" }, w)
  handle ready_check w = handle_ready w
  handle create_requests w = handle_create_request w
  handle list_all w = handle_list_requests w
  handle get_one w = handle_get_request w
  handle submit_one w = handle_submit_request w
  handle approve_one w = handle_approve_request w
  handle reject_one w = handle_reject_request w
  handle execution_result w = handle_execution_result w
  handle audit_of w = handle_audit w
