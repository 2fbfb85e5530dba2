-- ===== src/Workflow/Runs.antt =====
-- Sequences of calls of the service over the memory store, by clients and by the worker.
pub mod Laws
pub mod History
use review_workflow.Base.{◌≡◌, ap, none, arith, String, Bool, List, [], ◌∷◌, lookup, inl, inr}
use review_workflow.Base.Int.{ℤ, pos, ◌<ℤ◌}
use review_workflow.Domain.{Time, Actor, RequestFilter}
use review_workflow.Repository.Memory.{Memory}
use review_workflow.Repository.Memory
use review_workflow.Repository.Memory.Listing.{IsMap-keyed}
use review_workflow.Application.Errors.{Result}
use review_workflow.Application.Monad.{Service, World, M}
use review_workflow.Application.Requests.{CreateDraftInput}
use review_workflow.Application.Requests
use review_workflow.Application.Review
use review_workflow.Application.Execution
use review_workflow.Workflow.{EffectsOf, EffectOf, done, next, unchanged, on_memory, Effects-trans}
use review_workflow.Workflow.Drafts.{drafted_id, create_draft-Effect}
use review_workflow.Workflow.Submit.{submit_request-Effect}
use review_workflow.Workflow.Review.{approve_request-Effect, reject_request-Effect}
use review_workflow.Workflow.Execution.{record_execution_result-Effect}
use review_workflow.Workflow.Passes.{process_due_reminders-Effects, process_due_executions-Effects}
use review_workflow.Workflow.Consistent.{IsConsistent, Effects-IsConsistent}

-- The exported methods of `Service` but its constructor, with their arguments.
pub data Call : Type 0 where
  create_draft : Actor → CreateDraftInput → Call
  get_request : Actor → String → Call
  list_requests : Actor → RequestFilter → Call
  submit_request : Actor → String → String → Call
  approve_request reject_request : Actor → String → String → String → Call
  record_execution_result : Actor → String → Bool → String → Call
  list_audit : Actor → String → Call
  process_due_reminders process_due_executions : ℤ → Call

module _ (svc : Service Memory) (zero_time : Time) where
  -- The world after a call; its result goes to the caller.
  unfoldable pub perform : Call → World Memory → World Memory
  perform (create_draft actor input) w = (Requests.create_draft (on_memory svc) actor input w).1
  perform (get_request actor id) w = (Requests.get_request (on_memory svc) actor id w).1
  perform (list_requests actor filter) w = (Requests.list_requests (on_memory svc) actor filter w).1
  perform (submit_request actor id key) w =
      (Requests.submit_request (on_memory svc) actor id key w).1
  perform (approve_request actor id key comment) w =
      (Review.approve_request (on_memory svc) zero_time actor id key comment w).1
  perform (reject_request actor id key comment) w =
      (Review.reject_request (on_memory svc) zero_time actor id key comment w).1
  perform (record_execution_result actor id success message) w =
      (Execution.record_execution_result (on_memory svc) actor id success message w).1
  perform (list_audit actor id) w = (Requests.list_audit (on_memory svc) actor id w).1
  perform (process_due_reminders limit) w =
      (Execution.process_due_reminders (on_memory svc) limit w).1
  perform (process_due_executions limit) w =
      (Execution.process_due_executions (on_memory svc) limit w).1

  unfoldable pub run : List Call → World Memory → World Memory
  run [] w = w
  run (c ∷ cs) w = run cs (perform c w)

  -- The identifier that a call draws for a new request is not in use.
  abbrev pub IsFresh : Call → World Memory → Type 0
  IsFresh (create_draft actor input) w =
      lookup (drafted_id svc actor input w) w.state.requests ≡ none
  IsFresh _ w = Unit

  abbrev pub AllFresh : List Call → World Memory → Type 0
  AllFresh [] w = Unit
  AllFresh (c ∷ cs) w = IsFresh c w × AllFresh cs (perform c w)

  get_request-unchanged :
      (actor : Actor) (id : String) (w : World Memory)
      → (Requests.get_request (on_memory svc) actor id w).1.state ≡ w.state
  unfolding Requests.get_request Memory.get_request
  get_request-unchanged actor id w = ground arith

  list_requests-unchanged :
      (actor : Actor) (filter : RequestFilter) (w : World Memory)
      → (Requests.list_requests (on_memory svc) actor filter w).1.state ≡ w.state
  unfolding Requests.list_requests Memory.list_requests
  list_requests-unchanged actor filter w = ground arith

  list_audit-Unchanged :
      (actor : Actor) (id : String) (w : World Memory)
      → (Requests.list_audit (on_memory svc) actor id w).1.state ≡ w.state
  unfolding Requests.list_audit Memory.get_request Memory.list_audit
  list_audit-Unchanged actor id w = ground arith

  -- Every call is a chain of effects of the workflow.
  pub perform-Effects :
      (c : Call) (w : World Memory)
      → IsConsistent svc.execution_max_attempts w.state
      → IsFresh c w
      → EffectsOf svc w.state (perform c w).state
  unfolding perform
  perform-Effects (create_draft actor input) w i fresh =
      next done (create_draft-Effect svc actor input w fresh)
  perform-Effects (get_request actor id) w i _ =
      next done (unchanged svc (get_request-unchanged actor id w))
  perform-Effects (list_requests actor filter) w i _ =
      next done (unchanged svc (list_requests-unchanged actor filter w))
  perform-Effects (submit_request actor id key) w i _ =
      next done (submit_request-Effect svc actor id key w (IsMap-keyed _ i.map))
  perform-Effects (approve_request actor id key comment) w i _ =
      next done (approve_request-Effect svc zero_time actor id key comment w (IsMap-keyed _ i.map))
  perform-Effects (reject_request actor id key comment) w i _ =
      next done (reject_request-Effect svc zero_time actor id key comment w (IsMap-keyed _ i.map))
  perform-Effects (record_execution_result actor id success message) w i _ =
      next done
        (record_execution_result-Effect svc actor id success message w (IsMap-keyed _ i.map))
  perform-Effects (list_audit actor id) w i _ =
      next done (unchanged svc (list_audit-Unchanged actor id w))
  perform-Effects (process_due_reminders limit) w i _ =
      process_due_reminders-Effects svc limit w i.map
  perform-Effects (process_due_executions limit) w i _ =
      process_due_executions-Effects svc limit w i.map
