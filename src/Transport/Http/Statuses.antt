-- ===== src/Transport/Http/Statuses.antt =====
-- The errors of the service over the memory store, and the statuses that they are answered with.
use review_workflow.Base.{ℕ, ◌≡◌, ◌≢◌, refl, String, Bool, true, false, arith}
use review_workflow.Domain.{Time, RequestFilter, Actor}
use review_workflow.Repository.Memory.{Memory, compound}
use review_workflow.Repository.Memory
use review_workflow.Application.Errors.{other, Result, ok, err}
use review_workflow.Application.Monad.{Service, World, M, ◌>>=◌}
use review_workflow.Application.Requests.{
  CreateDraftInput, create_draft, get_request, list_requests, list_audit, submit_request,
}
use review_workflow.Application.Review.{approve_request, reject_request}
use review_workflow.Application.Execution.{record_execution_result, apply_execution_result}
use review_workflow.Workflow.{on_memory}
use review_workflow.Transport.Http.{
  HttpRequest, Body, request_body, Server, Endpoint, health, ready_check, create_requests, list_all,
  get_one, submit_one, approve_one, reject_one, execution_result, audit_of, handle, key_of, Bound,
  bound, unbound, bind, answer, write_error, error_status, actor_from_request, filter_of,
  requests_body, entries_body, handle_create_request, handle_list_requests, handle_get_request,
  handle_submit_request, handle_approve_request, handle_reject_request, handle_execution_result,
  handle_audit,
}

-- No error, or one of the sentinels.
abbrev pub is_known : {A : Type 0} → Result A → Bool
is_known (ok _) = true
is_known (err e) = elim e.kind [ other ↦ false | _ ↦ true ]

module _ (svc : Service Memory) (zero_time : Time) (actor : Actor) (w : World Memory) where
  create_draft-known :
      (input : CreateDraftInput) → is_known (create_draft (on_memory svc) actor input w).0 ≡ true
  unfolding create_draft Memory.create_request Memory.append_audit
  create_draft-known input = ground arith

  get_request-known : (id : String) → is_known (get_request (on_memory svc) actor id w).0 ≡ true
  unfolding get_request Memory.get_request
  get_request-known id = ground arith

  list_requests-known :
      (filter : RequestFilter) → is_known (list_requests (on_memory svc) actor filter w).0 ≡ true
  unfolding list_requests Memory.list_requests
  list_requests-known filter = ground arith

  list_audit-known : (id : String) → is_known (list_audit (on_memory svc) actor id w).0 ≡ true
  unfolding list_audit get_request Memory.get_request Memory.list_audit
  list_audit-known id = ground arith

  record_execution_result-known :
      (id message : String) (success : Bool)
      → is_known (record_execution_result (on_memory svc) actor id success message w).0 ≡ true
  unfolding record_execution_result apply_execution_result Memory.get_request Memory.update_request
      Memory.append_audit
  record_execution_result-known id message success = ground arith

  submit_request-known :
      (id key : String) → is_known (submit_request (on_memory svc) actor id key w).0 ≡ true
  unfolding submit_request Memory.get_request Memory.update_request Memory.append_audit
      Memory.get_idempotency Memory.create_idempotency
  submit_request-known id key = ground arith

  approve_request-known :
      (id key comment : String)
      → is_known (approve_request (on_memory svc) zero_time actor id key comment w).0 ≡ true
  unfolding approve_request Memory.get_request Memory.update_request Memory.append_audit
      Memory.get_idempotency Memory.create_idempotency Memory.create_review
  approve_request-known id key comment = ground arith

  reject_request-known :
      (id key comment : String)
      → is_known (reject_request (on_memory svc) zero_time actor id key comment w).0 ≡ true
  unfolding reject_request Memory.get_request Memory.update_request Memory.append_audit
      Memory.get_idempotency Memory.create_idempotency Memory.create_review
  reject_request-known id key comment = ground arith

abbrev Known : {A : Type 0} → M Memory A → Type 0
Known m = (w : World Memory) → is_known (m w).0 ≡ true

-- What follows a first step that is done.
Known-after :
    {A B : Type 0} (f : A → M Memory B)
    → ((a : A) → Known (f a))
    → (done : Result A × World Memory) → is_known done.0 ≡ true
    → is_known (((λ _. done) >>= f) done.1).0 ≡ true
Known-after f later (ok a, w) known = later a w
Known-after f later (err e, w) known = known

Known->>= :
    {A B : Type 0} (m : M Memory A) (f : A → M Memory B)
    → Known m
    → ((a : A) → Known (f a))
    → Known (m >>= f)
Known->>= m f known later w = Known-after f later (m w) (known w)

bind-Known : {A : Type 0} (b : Bound A) → Known (bind b)
unfolding bind
bind-Known (bound input) w = refl
bind-Known (unbound text) w = refl

answer-no_500 :
    {A : Type 0} (status : ℕ) (body : A → Body) (m : M Memory A) (w : World Memory)
    → status ≢ 500
    → Known m
    → (answer status body m w).0.status ≢ 500
unfolding answer write_error error_status
answer-no_500 status body m w fine known = ground (arith, known w)

-- The server in front of the memory store.
abbrev pub memory_server : Server Memory → Server Memory
memory_server server = record server { service = on_memory server.service }

module _ (server : Server Memory) (zero_time : Time) (req : HttpRequest) (w : World Memory) where
  actor-Known : Known (actor_from_request (memory_server server) zero_time req)
  unfolding actor_from_request
  actor-Known w' = ground arith

  -- The answer to an action of the actor that the headers name.
  answer_as-no_500 :
      {A : Type 0} (status : ℕ) (body : A → Body) (f : Actor → M Memory A)
      → status ≢ 500
      → ((actor : Actor) → Known (f actor))
      → (answer status body
          (actor_from_request (memory_server server) zero_time req >>= f)
          w).0.status
        ≢ 500
  answer_as-no_500 status body f fine known =
      answer-no_500 status body (actor_from_request (memory_server server) zero_time req >>= f) w
        fine
        (Known->>= (actor_from_request (memory_server server) zero_time req) f actor-Known known)

  abbrev svc : Service Memory
  svc = on_memory server.service

  abbrev id : String
  id = req.param "id"

  -- In front of the memory store, no endpoint but the readiness check answers 500.
  pub handle-no_500 :
      (endpoint : Endpoint)
      → endpoint ≢ ready_check
      → (handle (memory_server server) zero_time req endpoint w).0.status ≢ 500
  unfolding handle handle_create_request handle_list_requests handle_get_request
      handle_submit_request handle_approve_request handle_reject_request handle_execution_result
      handle_audit
  handle-no_500 health api = omega arith
  handle-no_500 ready_check api = absurd (api refl)
  handle-no_500 create_requests api =
      answer_as-no_500 201 request_body
        (λ actor. bind req.draft_input >>= λ input. create_draft svc actor input) (omega arith)
        (λ actor.
          Known->>= (bind req.draft_input) (create_draft svc actor) (bind-Known req.draft_input)
            (λ input w'. create_draft-known server.service zero_time actor w' input))
  handle-no_500 list_all api =
      answer_as-no_500 200 requests_body (λ actor. list_requests svc actor (filter_of req))
        (omega arith)
        (λ actor w'. list_requests-known server.service zero_time actor w' (filter_of req))
  handle-no_500 get_one api =
      answer_as-no_500 200 request_body (λ actor. get_request svc actor id) (omega arith)
        (λ actor w'. get_request-known server.service zero_time actor w' id)
  handle-no_500 submit_one api =
      answer_as-no_500 200 request_body (λ actor. submit_request svc actor id (key_of req))
        (omega arith)
        (λ actor w'. submit_request-known server.service zero_time actor w' id (key_of req))
  handle-no_500 approve_one api =
      answer_as-no_500 200 request_body
        (λ actor. bind req.review_input >>= λ input.
          approve_request svc zero_time actor id (key_of req) input.comment)
        (omega arith)
        (λ actor.
          Known->>= (bind req.review_input)
            (λ input. approve_request svc zero_time actor id (key_of req) input.comment)
            (bind-Known req.review_input)
            (λ input w'.
              approve_request-known server.service zero_time actor w' id (key_of req)
                input.comment))
  handle-no_500 reject_one api =
      answer_as-no_500 200 request_body
        (λ actor. bind req.review_input >>= λ input.
          reject_request svc zero_time actor id (key_of req) input.comment)
        (omega arith)
        (λ actor.
          Known->>= (bind req.review_input)
            (λ input. reject_request svc zero_time actor id (key_of req) input.comment)
            (bind-Known req.review_input)
            (λ input w'.
              reject_request-known server.service zero_time actor w' id (key_of req) input.comment))
  handle-no_500 execution_result api =
      answer_as-no_500 200 request_body
        (λ actor. bind req.result_input >>= λ input.
          record_execution_result svc actor id input.success input.error)
        (omega arith)
        (λ actor.
          Known->>= (bind req.result_input)
            (λ input. record_execution_result svc actor id input.success input.error)
            (bind-Known req.result_input)
            (λ input w'.
              record_execution_result-known server.service zero_time actor w' id input.error
                input.success))
  handle-no_500 audit_of api =
      answer_as-no_500 200 entries_body (λ actor. list_audit svc actor id) (omega arith)
        (λ actor w'. list_audit-known server.service zero_time actor w' id)
