-- ===== src/Transport/Http/Answers.antt =====
-- The answers of the HTTP handlers, in front of any store and of the memory store.
use review_workflow.Base.{◌≡◌, ap, String, none, some, lookup, Bool, trim_space, arith, inl}
use review_workflow.Domain.{Time, Request, approved, validate_actor}
use review_workflow.Repository.Memory.{Memory}
use review_workflow.Application.Errors.{Result, err_unauthorized, wrap}
use review_workflow.Application.Monad.{World}
use review_workflow.Application.Review.{ReviewInput, zero_request}
use review_workflow.Transport.Http.Statuses.{memory_server}
use review_workflow.Application.Review.Outcomes.{approve_request-swallows_error}
use review_workflow.Transport.Http.{
  HttpRequest, request_body, error_body, Server, Endpoint, health, ready_check, create_requests,
  list_all, get_one, submit_one, approve_one, reject_one, execution_result, audit_of, handle,
  named_actor, key_of, bound, bind, answer, write_error, error_status, actor_from_request,
  handle_create_request, handle_list_requests, handle_get_request, handle_submit_request,
  handle_approve_request, handle_reject_request, handle_execution_result, handle_audit,
}

abbrev pub needs_actor : Endpoint → Bool
needs_actor health = Bool.false
needs_actor ready_check = Bool.false
needs_actor _ = Bool.true

module _ {S : Type 0} (server : Server S) (zero_time : Time) (req : HttpRequest) (w : World S) where
  -- If the headers name no valid actor, every endpoint of the API answers 401 with the reason and
  -- changes nothing, over any store.
  pub handle-unauthorized :
      (endpoint : Endpoint) (reason : String)
      → needs_actor endpoint ≡ Bool.true
      → validate_actor server.service.runtime.quote (named_actor req) ≡ some reason
      → handle server zero_time req endpoint w
        ≡ (record { status = 401; body = error_body (wrap err_unauthorized reason).message }, w)
  unfolding handle actor_from_request answer write_error error_status handle_create_request
      handle_list_requests handle_get_request handle_submit_request handle_approve_request
      handle_reject_request handle_execution_result handle_audit
  handle-unauthorized health reason api invalid = cc
  handle-unauthorized ready_check reason api invalid = cc
  handle-unauthorized create_requests reason api invalid = ground arith
  handle-unauthorized list_all reason api invalid = ground arith
  handle-unauthorized get_one reason api invalid = ground arith
  handle-unauthorized submit_one reason api invalid = ground arith
  handle-unauthorized approve_one reason api invalid = ground arith
  handle-unauthorized reject_one reason api invalid = ground arith
  handle-unauthorized execution_result reason api invalid = ground arith
  handle-unauthorized audit_of reason api invalid = ground arith

module _ (server : Server Memory) (zero_time : Time) (req : HttpRequest) (w : World Memory)
    (r : Request) (input : ReviewInput) where
  -- In front of the memory store, an approval of an approved request by a valid actor, with a blank
  -- key, is answered 200 with an empty request.
  pub approve-blank_key :
      lookup (req.param "id") w.state.requests ≡ some r
      → r.status ≡ approved
      → validate_actor server.service.runtime.quote (named_actor req) ≡ none
      → req.review_input ≡ bound input
      → trim_space (key_of req) ≡ ""
      → handle (memory_server server) zero_time req approve_one w
        ≡ (record { status = 200; body = request_body (zero_request zero_time) }, w)
  unfolding handle actor_from_request answer bind handle_approve_request
  approve-blank_key stored was valid given blank =
      let swallowed =
        approve_request-swallows_error server.service zero_time (named_actor req) (req.param "id")
          (key_of req) input.comment w r stored was (inl blank) in
      rw (valid, actor_from_request, given, bind)
        (ap (λ (x : Result Request × World Memory). answer 200 request_body (λ _. x) w) swallowed)
