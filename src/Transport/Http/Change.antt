-- ===== src/Transport/Http/Change.antt =====
-- What an endpoint does to the requests of the store behind it.
pub mod Handlers
use mathlib.Core.Path.{subst}
use review_workflow.Base.{
  List, ℕ, ◌≡◌, sym, ap, ◌∙◌, Bool, true, false, String, Option, none, some, arith,
}
use review_workflow.Domain.{Time, Actor, Request, RequestFilter, approved, rejected, validate_actor}
use review_workflow.Application.Errors.{Result, ok, err, err_forbidden, err_invalid_input, wrap}
use review_workflow.Application.Monad.{Service, World, M, ◌>>=◌, raise, call}
use review_workflow.Application.Requests.{
  get_request, list_requests, list_audit, submit_request, effective_filter,
}
use review_workflow.Application.Review.{ReviewInput, approve_request, reject_request}
use review_workflow.Application.Execution.{ExecutionResultInput, record_execution_result}
use review_workflow.Application.Contract.Protocol.{Protocol}
use review_workflow.Application.Contract.Keeps.{
  Keeps, keeps_rules, Keeps-pure, Keeps-raise, Does, Does-Keeps, Does->>=, Keeps->>=, Keeps-call,
}
use review_workflow.Application.Contract.Helpers.{Named, Keeps-get}
use review_workflow.Application.Contract.Submit.{SubmitChange, Does-submit_request}
use review_workflow.Application.Contract.Review.{
  ReviewChange, Does-approve_request, Does-reject_request,
}
use review_workflow.Application.Contract.Execution.{ExecutionChange, Does-record_execution_result}
use review_workflow.Transport.Http.{
  Bound, bound, unbound, Body, request_body, requests_body, entries_body, HttpRequest, Server,
  Response, Endpoint, health, ready_check, create_requests, list_all, get_one, submit_one,
  approve_one, reject_one, execution_result, audit_of, named_actor, actor_from_request, bind,
  answer, filter_of, key_of, handle, handle_list_requests, handle_get_request,
  handle_submit_request, handle_approve_request, handle_reject_request, handle_execution_result,
  handle_audit,
}

-- The change that a body with an execution result asks for.
abbrev pub ResultChange : Actor → Bound ExecutionResultInput → Request → Request → Type 0
ResultChange actor (bound input) r r' = ExecutionChange actor input.success r r'
ResultChange actor (unbound text) r r' = ⊥

-- The change that an endpoint is for, of the request that its path names.
abbrev pub EndpointChange : HttpRequest → Endpoint → Request → Request → Type 0
EndpointChange req submit_one = Named (req.param "id") (SubmitChange (named_actor req))
EndpointChange req approve_one = Named (req.param "id") (ReviewChange approved (named_actor req))
EndpointChange req reject_one = Named (req.param "id") (ReviewChange rejected (named_actor req))
EndpointChange req execution_result =
    Named (req.param "id") (ResultChange (named_actor req) req.result_input)
EndpointChange req health = λ r r'. ⊥
EndpointChange req ready_check = λ r r'. ⊥
EndpointChange req create_requests = λ r r'. ⊥
EndpointChange req list_all = λ r r'. ⊥
EndpointChange req get_one = λ r r'. ⊥
EndpointChange req audit_of = λ r r'. ⊥

-- The endpoints on requests that are there.
abbrev pub IsOnHeld : Endpoint → Type 0
IsOnHeld health = Unit
IsOnHeld ready_check = ⊥
IsOnHeld create_requests = ⊥
IsOnHeld list_all = Unit
IsOnHeld get_one = Unit
IsOnHeld submit_one = Unit
IsOnHeld approve_one = Unit
IsOnHeld reject_one = Unit
IsOnHeld execution_result = Unit
IsOnHeld audit_of = Unit

module _ {S : Type 0} (server : Server S) (zero_time : Time) (req : HttpRequest)
    (p : Protocol server.service.store) where
  answer-state :
      {A : Type 0} (status : ℕ) (body : A → Body) (action : M S A) (w : World S)
      → (answer status body action w).1 ≡ (action w).1
  unfolding answer
  answer-state status body action w = ground arith

  actor-named :
      (w : World S) (actor : Actor)
      → (actor_from_request server zero_time req w).0 ≡ ok actor
      → actor ≡ named_actor req
  unfolding actor_from_request
  actor-named w actor e = ground arith

  actor-world : (w : World S) → (actor_from_request server zero_time req w).1 ≡ w
  unfolding actor_from_request
  actor-world w = ground arith

  Keeps-actor : Keeps p (actor_from_request server zero_time req)
  Keeps-actor = record {
    at = λ w v. subst (λ w'. p.Between w.state w'.state) (sym (actor-world w)) (p.rest w.state v);
  }

  pub Keeps-bind : {A : Type 0} (body : Bound A) → Keeps p (bind body)
  unfolding bind
  Keeps-bind (bound input) = Keeps-pure p input
  Keeps-bind (unbound text) = Keeps-raise p _

  pub Keeps-get_request :
      (actor : Actor) (id : String) → Keeps p (get_request server.service actor id)
  unfolding get_request
  Keeps-get_request actor id = search (keeps_rules, p.get_waits)

  pub Keeps-list_audit :
      (actor : Actor) (id : String) → Keeps p (list_audit server.service actor id)
  unfolding list_audit
  Keeps-list_audit actor id = search (keeps_rules, Keeps-get_request, p.list_audit_waits)

  checked-Keeps :
      (actor : Actor) (found : Option String)
      → Keeps p {A = Unit {0}} (λ w. elim found [
        | none ↦ (ok tt, w)
        | some message ↦ (err (wrap err_invalid_input message), w)
      ])
  checked-Keeps actor none = Keeps-pure p tt
  checked-Keeps actor (some message) = Keeps-raise p _

  filtered-Keeps :
      (found : Option RequestFilter)
      → Keeps p {A = List Request} (elim found [
        | none ↦ raise err_forbidden
        | some filter ↦ call (server.service.store.list_requests filter)
      ])
  filtered-Keeps none = Keeps-raise p err_forbidden
  filtered-Keeps (some filter) =
      Keeps-call p (server.service.store.list_requests filter) (p.list_waits filter)

  pub Keeps-list_requests :
      (actor : Actor) (filter : RequestFilter) → Keeps p (list_requests server.service actor filter)
  unfolding list_requests validate_actor effective_filter
  Keeps-list_requests actor filter =
      Keeps->>= p _ _ (checked-Keeps actor (validate_actor server.service.runtime.quote actor))
        (λ u. filtered-Keeps (effective_filter server.service actor.role actor filter))

  -- An action of the actor that the headers name.
  Does-acting :
      {A : Type 0} (P : Request → Request → Type 0) (f : Actor → M S A) (w : World S)
      → ((w' : World S) → Does p P (f (named_actor req)) w')
      → Does p P (actor_from_request server zero_time req >>= f) w
  Does-acting P f w d =
      Does->>= p P (actor_from_request server zero_time req) f w Keeps-actor (λ v actor e b.
        subst (λ a. Does p P (f a) (actor_from_request server zero_time req w).1)
          (sym (actor-named w actor e)) (d _))

  pub answered :
      {A : Type 0} (P : Request → Request → Type 0) (status : ℕ) (body : A → Body)
      (f : Actor → M S A) (w : World S)
      → ((w' : World S) → Does p P (f (named_actor req)) w')
      → p.Good w.state
      → p.Ends P w.state
          (answer status body (actor_from_request server zero_time req >>= f) w).1.state
  answered P status body f w d v =
      let action = actor_from_request server zero_time req >>= f in
      subst (λ w'. p.Ends P w.state w'.state) (sym (answer-state status body action w))
        ((Does-acting P f w d).at v)

  pub Does-record :
      (body : Bound ExecutionResultInput) (w : World S)
      → Does p
          (Named (req.param "id") (ResultChange (named_actor req) body))
          (bind body >>= λ input.
            record_execution_result server.service
              (named_actor req)
              (req.param "id")
              input.success
              input.error)
          w
  unfolding bind
  Does-record (unbound text) w = Does-Keeps p _ _ w (Keeps-raise p _)
  Does-record (bound input) w =
      Does-record_execution_result server.service p (named_actor req) input.success input.error
        (req.param "id") w
