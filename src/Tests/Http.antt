-- ===== src/Tests/Http.antt =====
-- The theorems on the HTTP handlers at concrete requests.
use review_workflow.Base.{
  ◌≡◌, ◌≢◌, refl, String, ◌==◌, none, trim_space, trim_left, trim_right, is_space, if◌then◌else◌,
}
use review_workflow.Domain.{approved, role_of, validate_actor}
use review_workflow.Repository.Memory.{Memory}
use review_workflow.Application.Errors.{err_unauthorized, wrap}
use review_workflow.Application.Monad.{World}
use review_workflow.Transport.Http.{
  HttpRequest, Server, bound, unbound, error_body, handle, submit_one, named_actor,
}
use review_workflow.Transport.Http.Answers.{handle-unauthorized}
use review_workflow.Transport.Http.Statuses.{handle-no_500}
use review_workflow.Tests.{service, zero_time, with_status, holding}

abbrev server : Server Memory
server = record { service = service; ready = none; service_name = "review-workflow" }

abbrev approvals : World Memory
approvals = holding (with_status approved)

abbrev pub headers : String → String → String
headers id name =
    if name == "X-Actor-Id" then id else if name == "X-Actor-Role" then "reviewer" else ""

abbrev pub request_by : String → HttpRequest
request_by id = record {
  header = headers id;
  query = λ _. "";
  param = λ _. "req_00";
  draft_input = unbound "EOF";
  review_input = bound (record { comment = "ok" });
  result_input = unbound "EOF";
}

handle-unauthorized_example : handle server zero_time (request_by " ") submit_one approvals ≡ (
  record { status = 401; body = error_body (wrap err_unauthorized "actor id is required").message },
  approvals,
)
unfolding validate_actor named_actor role_of trim_space trim_left trim_right is_space
handle-unauthorized_example =
    handle-unauthorized server zero_time (request_by " ") approvals submit_one
      "actor id is required" refl refl

handle-no_500_example :
    (handle server zero_time (request_by "reviewer-1") submit_one approvals).0.status ≢ 500
handle-no_500_example =
    handle-no_500 server zero_time (request_by "reviewer-1") approvals submit_one (λ e. cc)
