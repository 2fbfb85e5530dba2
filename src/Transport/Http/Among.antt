-- ===== src/Transport/Http/Among.antt =====
-- The interface in front of a store that the server shares with others: the worker, other requests,
-- and other servers.
use review_workflow.Base.{String, Option}
use review_workflow.Domain.{Time, Request}
use review_workflow.Application.Monad.{Service, World, M}
use review_workflow.Application.Contract.{Contract}
use review_workflow.Application.Contract.Among.{Shared, IsShared, OneChange, among_others}
use review_workflow.Application.Contract.Among.Calls.{Ends-OneChange}
use review_workflow.Application.Contract.Among.Rules.{shared}
use review_workflow.Transport.Http.{HttpRequest, Server, Endpoint, handle}
use review_workflow.Transport.Http.Change.{EndpointChange, IsOnHeld}
use review_workflow.Transport.Http.Change.Handlers.{handle-Ends}

module _ {S : Type 0} (svc : Service S) {Valid : S → Type 0} {request : S → String → Option Request}
    (c : Contract svc.store Valid request) (ready : Option (M (Shared S) (Unit {0})))
    (service_name : String) where
  abbrev pub server : Server (Shared S)
  server = record { service = among_others svc; ready = ready; service_name = service_name }

  -- The server shares any store with the contract with others, who take steps before any of its
  -- calls of the store: fewer than 2 ^ 64 in all, each of which leaves every request as it was or
  -- with the next version. From valid data, whatever an HTTP request holds, the endpoints but those
  -- of creation and readiness change at most the request that the path names, and that as it stands
  -- at that time, by the transition that the endpoint is for and on behalf of the actor that the
  -- headers name; the reading endpoints change none.
  pub handle-OneChange :
      (zero_time : Time) (req : HttpRequest) (e : Endpoint) (w : World (Shared S))
      → IsOnHeld e
      → IsShared Valid request w.state
      → OneChange Valid request
          (EndpointChange req e)
          w.state
          (handle server zero_time req e w).1.state
  handle-OneChange zero_time req e w held v =
      Ends-OneChange svc zero_time c (EndpointChange req e) w.state _
        (handle-Ends server zero_time req (shared c) w v e held)
