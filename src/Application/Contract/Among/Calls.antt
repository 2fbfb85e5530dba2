-- ===== src/Application/Contract/Among/Calls.antt =====
-- The calls of a client that shares its store with others.
use review_workflow.Base.{Bool, String, Option, inl, inr}
use review_workflow.Domain.{Time, Actor, Request, approved, rejected}
use review_workflow.Application.Monad.{Service, World}
use review_workflow.Application.Requests.{submit_request}
use review_workflow.Application.Review.{approve_request, reject_request}
use review_workflow.Application.Execution.{record_execution_result}
use review_workflow.Application.Contract.{Contract}
use review_workflow.Application.Contract.Helpers.{Named}
use review_workflow.Application.Contract.Submit.{SubmitChange, Does-submit_request}
use review_workflow.Application.Contract.Review.{
  ReviewChange, Does-approve_request, Does-reject_request,
}
use review_workflow.Application.Contract.Execution.{ExecutionChange, Does-record_execution_result}
use review_workflow.Application.Contract.Among.{Shared, IsShared, OneChange, among_others}
use review_workflow.Application.Contract.Among.Steps.{Ends}
use review_workflow.Application.Contract.Among.Rules.{shared}

module _ {S : Type 0} (svc : Service S) (zero_time : Time) {Valid : S → Type 0}
    {request : S → String → Option Request} (c : Contract svc.store Valid request) where
  pub Ends-OneChange :
      (P : Request → Request → Type 0) (t u : Shared S)
      → Ends Valid request P t u
      → OneChange Valid request P t u
  Ends-OneChange P t u (v, inl b) = inl b.1
  Ends-OneChange P t u (v, inr (x, y, es, fs, (own, keeps))) = inr (x, y, es, own, fs)

  -- A client shares any store with the contract with others, who take steps before any of the
  -- client's calls of the store: fewer than 2 ^ 64 in all, each of which leaves every request as it
  -- was or with the next version. From valid data, in each call of the client its own calls of the
  -- store change at most the request that the call names, and that as it stands at that time: a
  -- submission by the owner or an admin makes a draft pending, a decision by somebody who may
  -- review and did not ask makes a pending request approved or rejected, and an execution result by
  -- an admin or a reviewer makes an approved or failed request executed or failed and counts the
  -- attempt. The requester stays, and the version goes up by one.
  pub calls-OneChange :
      (actor : Actor) (id key comment : String) (success : Bool) (w : World (Shared S))
      → IsShared Valid request w.state
      → OneChange Valid request
          (Named id (SubmitChange actor))
          w.state
          (submit_request (among_others svc) actor id key w).1.state
        × OneChange Valid request
            (Named id (ReviewChange approved actor))
            w.state
            (approve_request (among_others svc) zero_time actor id key comment w).1.state
        × OneChange Valid request
            (Named id (ReviewChange rejected actor))
            w.state
            (reject_request (among_others svc) zero_time actor id key comment w).1.state
        × OneChange Valid request
            (Named id (ExecutionChange actor success))
            w.state
            (record_execution_result (among_others svc) actor id success comment w).1.state
  calls-OneChange actor id key comment success w v =
      let others = among_others svc in
      let p = shared c in
      (
        Ends-OneChange _ _ _ ((Does-submit_request others p actor id key w).at v),
        Ends-OneChange _ _ _
            ((Does-approve_request others zero_time p actor id key comment w).at v),
        Ends-OneChange _ _ _ ((Does-reject_request others zero_time p actor id key comment w).at v),
        Ends-OneChange _ _ _
            ((Does-record_execution_result others p actor success comment id w).at v),
      )
