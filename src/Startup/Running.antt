-- ===== src/Startup/Running.antt =====
-- What a server of cmd/server/main.go goes on to do: it answers requests, and its worker runs. From
-- the side of one answer, or of the worker, all else is what others do to the same store: the other
-- answers, the worker, and other servers.
use review_workflow.Base.{◌≡◌, sym, ◌∙◌, inl, inr, true, false, String, Option, some, List}
use mathlib.Core.Path.{subst}
use mathlib.Core.Option.{some-injective}
use review_workflow.Base.Int.{ℤ}
use review_workflow.Domain.{Time, Duration, Actor, Request}
use review_workflow.Application.Helpers.{system_actor}
use review_workflow.Application.Monad.{Service, World, M}
use review_workflow.Application.Execution.{ExecutionResultInput}
use review_workflow.Application.Contract.{Contract}
use review_workflow.Application.Contract.Among.{
  Shared, IsShared, Course, unmoved, waiting, changing,
}
use review_workflow.Application.Contract.Among.Steps.{Ends}
use review_workflow.Application.Contract.Among.Rules.{shared}
use review_workflow.Application.Contract.Among.History.{
  Transition, submission, approval, rejection, execution, reminder, Transitions, IsLawfulAlong,
}
use review_workflow.Application.Contract.Among.Approval.{WasApproved, Course-Evolved}
use review_workflow.Jobs.Worker.{Event, start}
use review_workflow.Jobs.Worker.Among.{WorkerChange, worker, Course-mono, start-Led}
use review_workflow.Transport.Http.Among.{server}
use review_workflow.Transport.Http.{
  Bound, bound, unbound, HttpRequest, Endpoint, health, ready_check, create_requests, list_all,
  get_one, submit_one, approve_one, reject_one, execution_result, audit_of, named_actor, handle,
}
use review_workflow.Transport.Http.Change.{EndpointChange, ResultChange, IsOnHeld}
use review_workflow.Transport.Http.Change.Handlers.{handle-Ends}
use review_workflow.Workflow.Sound.{is_released}

-- An answer to a request, or the worker's `Start` with the events that it receives.
pub data Job : Type 0 where
  serve : HttpRequest → Endpoint → Job
  work : List Event → Job

-- Creation and the readiness check are left out.
abbrev pub IsOnHeldJob : Job → Type 0
IsOnHeldJob (serve req e) = IsOnHeld e
IsOnHeldJob (work events) = Unit

-- The actor on whose behalf a job changes requests.
abbrev pub actor_of : Job → Actor
actor_of (serve req e) = named_actor req
actor_of (work events) = system_actor

module _ (By : Actor → Type 0) where
  ResultChange-Transition :
      (actor : Actor) (body : Bound ExecutionResultInput) (r r' : Request)
      → By actor
      → ResultChange actor body r r'
      → Transition By r r'
  ResultChange-Transition actor (bound input) r r' by p = execution actor input.success by p
  ResultChange-Transition actor (unbound text) r r' by p = absurd p

  EndpointChange-Transition :
      (req : HttpRequest) (e : Endpoint) (r r' : Request)
      → By (named_actor req)
      → EndpointChange req e r r'
      → Transition By r r'
  EndpointChange-Transition req submit_one r r' by p = submission (named_actor req) by p.1
  EndpointChange-Transition req approve_one r r' by p = approval (named_actor req) by p.1
  EndpointChange-Transition req reject_one r r' by p = rejection (named_actor req) by p.1
  EndpointChange-Transition req execution_result r r' by p =
      ResultChange-Transition (named_actor req) req.result_input r r' by p.1
  EndpointChange-Transition req health r r' by p = absurd p
  EndpointChange-Transition req ready_check r r' by p = absurd p
  EndpointChange-Transition req create_requests r r' by p = absurd p
  EndpointChange-Transition req list_all r r' by p = absurd p
  EndpointChange-Transition req get_one r r' by p = absurd p
  EndpointChange-Transition req audit_of r r' by p = absurd p

module _ {S : Type 0} (svc : Service S) {Valid : S → Type 0} {request : S → String → Option Request}
    (c : Contract svc.store Valid request) (zero_time : Time)
    (ready : Option (M (Shared S) (Unit {0}))) (service_name : String) (poll_interval : Duration)
    (batch_size : ℤ) (By : Actor → Type 0) where
  abbrev pub perform : Job → World (Shared S) → World (Shared S)
  perform (serve req e) w = (handle (server svc c ready service_name) zero_time req e w).1
  perform (work events) w = (start (worker svc c poll_interval batch_size) events w).1

  Ends-Course :
      (P : Request → Request → Type 0) (t u : Shared S)
      → Ends Valid request P t u
      → Course Valid request P t u
  Ends-Course P t u (v, inl b) = waiting unmoved b.1
  Ends-Course P t u (v, inr (x, y, before, after, (own, keeps))) =
      waiting (changing (waiting unmoved before) own) after

  WorkerChange-Transition :
      (r r' : Request) → By system_actor → WorkerChange svc c r r' → Transition By r r'
  WorkerChange-Transition r r' by (inl p) = execution system_actor _ by p
  WorkerChange-Transition r r' by (inr p) = reminder p

  perform-Course :
      (job : Job) (w : World (Shared S))
      → IsOnHeldJob job
      → By (actor_of job)
      → IsShared Valid request w.state
      → Course Valid request (Transition By) w.state (perform job w).state
  perform-Course (serve req e) w on by v =
      Course-mono svc c (EndpointChange req e) (Transition By)
        (λ r r' p. EndpointChange-Transition By req e r r' by p)
        (Ends-Course (EndpointChange req e) w.state _
          (handle-Ends (server svc c ready service_name) zero_time req (shared c) w v e on))
  perform-Course (work events) w on by v =
      Course-mono svc c (WorkerChange svc c) (Transition By)
        (λ r r' p. WorkerChange-Transition r r' by p)
        (start-Led svc c poll_interval batch_size events w v).1

  -- A server shares any store with the contract with others, who take steps before any of its calls
  -- of the store: fewer than 2 ^ 64 in all, each of which leaves every request as it was or with the
  -- next version. Given are the actors on whose behalf anything is done: the job's own actor, which
  -- the headers name or which is the worker's, is one of them, and wherever the run comes to, the
  -- next step of another leaves every request as it was or after one transition by one of them.
  -- Then, from valid data, an answer of any endpoint but creation and readiness, and the worker on
  -- whatever events it receives, leave every request that was held under its identifier, as a
  -- sequence of transitions by these actors has made it, and with its requester.
  pub perform-Evolves :
      (job : Job) (w : World (Shared S)) (k : String) (r : Request)
      → IsOnHeldJob job
      → By (actor_of job)
      → IsShared Valid request w.state
      → IsLawfulAlong Valid request By w.state
      → request w.state.state k ≡ some r
      → (q : Request) × (request (perform job w).state.state k ≡ some q)
        × Transitions By r q
        × (q.requester_id ≡ r.requester_id)
  perform-Evolves job w k r on by v lawful held =
      let (q, (now_, path, requester, _)) =
        Course-Evolved Valid request By w.state lawful (perform job w).state
          (perform-Course job w on by v) k r held in
      (q, now_, path, requester)

  -- A server shares any store with the contract with others, who take steps before any of its calls
  -- of the store: fewer than 2 ^ 64 in all, each of which leaves every request as it was or with
  -- the next version. Given are the actors on whose behalf anything is done: the job's own actor,
  -- which the headers name or which is the worker's, is one of them, and wherever the run comes to,
  -- the next step of another leaves every request as it was or after one transition by one of them.
  -- Then, from valid data, if a request is approved, executed or failed after an answer of any
  -- endpoint but creation and readiness, or after the worker's events, and was none of these
  -- before, then one step of the run, of another or of the job's, has made it approved from
  -- pending, on behalf of one of these actors, who is an admin or the reviewer to whom it was
  -- assigned at that time, and who is not its requester.
  pub perform-approved :
      (job : Job) (w : World (Shared S)) (k : String) (r q : Request)
      → IsOnHeldJob job
      → By (actor_of job)
      → IsShared Valid request w.state
      → IsLawfulAlong Valid request By w.state
      → request w.state.state k ≡ some r
      → is_released r.status ≡ false
      → request (perform job w).state.state k ≡ some q
      → is_released q.status ≡ true
      → WasApproved Valid request By w.state (perform job w).state k r
  perform-approved job w k r q on by v lawful was unreleased is_now released =
      let (q', (now_, _, _, since)) =
        Course-Evolved Valid request By w.state lawful (perform job w).state
          (perform-Course job w on by v) k r was in
      let e : q ≡ q' = some-injective q q' (sym is_now ∙ now_) in
      since unreleased (subst (λ o. is_released o.status ≡ true) e released)
