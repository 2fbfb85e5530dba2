-- ===== src/Application/Contract/Calls.antt =====
-- The calls of clients over any store with the contract.
use review_workflow.Base.{Bool, String, Option}
use review_workflow.Domain.{Time, Actor, Request, approved, rejected}
use review_workflow.Application.Monad.{Service, World}
use review_workflow.Application.Requests.{submit_request}
use review_workflow.Application.Review.{approve_request, reject_request}
use review_workflow.Application.Execution.{record_execution_result}
use review_workflow.Application.Contract.{Contract}
use review_workflow.Application.Contract.Moved.{Moved}
use review_workflow.Application.Contract.Alone.{alone}
use review_workflow.Application.Contract.Helpers.{Named}
use review_workflow.Application.Contract.Submit.{SubmitChange, Does-submit_request}
use review_workflow.Application.Contract.Review.{
  ReviewChange, Does-approve_request, Does-reject_request,
}
use review_workflow.Application.Contract.Execution.{ExecutionChange, Does-record_execution_result}

module _ {S : Type 0} (svc : Service S) (zero_time : Time) {Valid : S → Type 0}
    {request : S → String → Option Request} (c : Contract svc.store Valid request) where
  -- Over any store with the contract, from a valid state, each call leaves every request as it was
  -- but for at most the change that it is for, of the request that it names: a submission by the
  -- owner or an admin makes a draft pending, a decision by somebody who may review and did not ask
  -- makes a pending request approved or rejected, and an execution result by an admin or a reviewer
  -- makes an approved or failed request executed or failed and counts the attempt. The requester
  -- stays, and the version goes up by one.
  pub calls-Moved :
      (actor : Actor) (id key comment : String) (success : Bool) (w : World S)
      → Valid w.state
      → Moved c (Named id (SubmitChange actor)) w.state (submit_request svc actor id key w).1.state
        × Moved c
            (Named id (ReviewChange approved actor))
            w.state
            (approve_request svc zero_time actor id key comment w).1.state
        × Moved c
            (Named id (ReviewChange rejected actor))
            w.state
            (reject_request svc zero_time actor id key comment w).1.state
        × Moved c
            (Named id (ExecutionChange actor success))
            w.state
            (record_execution_result svc actor id success comment w).1.state
  calls-Moved actor id key comment success w v = (
    (Does-submit_request svc (alone c) actor id key w).at v,
    (Does-approve_request svc zero_time (alone c) actor id key comment w).at v,
    (Does-reject_request svc zero_time (alone c) actor id key comment w).at v,
    (Does-record_execution_result svc (alone c) actor success comment id w).at v,
  )
