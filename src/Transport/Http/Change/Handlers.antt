-- ===== src/Transport/Http/Change/Handlers.antt =====
-- What each handler does to the requests of the store behind it.
use review_workflow.Domain.{Time, Request}
use review_workflow.Application.Monad.{World, ◌>>=◌}
use review_workflow.Application.Requests.{get_request, list_requests, list_audit, submit_request}
use review_workflow.Application.Review.{approve_request, reject_request}
use review_workflow.Application.Execution.{record_execution_result}
use review_workflow.Application.Contract.Protocol.{Protocol}
use review_workflow.Application.Contract.Keeps.{Does-Keeps, Does->>=}
use review_workflow.Application.Contract.Submit.{Does-submit_request}
use review_workflow.Application.Contract.Review.{Does-approve_request, Does-reject_request}
use review_workflow.Transport.Http.{
  request_body, requests_body, entries_body, HttpRequest, Server, Response, Endpoint, health,
  ready_check, create_requests, list_all, get_one, submit_one, approve_one, reject_one,
  execution_result, audit_of, named_actor, bind, filter_of, key_of, handle, handle_list_requests,
  handle_get_request, handle_submit_request, handle_approve_request, handle_reject_request,
  handle_execution_result, handle_audit,
}
use review_workflow.Transport.Http.Change.{
  EndpointChange, IsOnHeld, Keeps-bind, Keeps-get_request, Keeps-list_audit, Keeps-list_requests,
  answered, Does-record,
}

module _ {S : Type 0} (server : Server S) (zero_time : Time) (req : HttpRequest)
    (p : Protocol server.service.store) where
  module _ (w : World S) (v : p.Good w.state) where
    abbrev Effects : Endpoint → (World S → Response × World S) → Type 0
    Effects e handler = p.Ends (EndpointChange req e) w.state (handler w).1.state

    abbrev Change : Endpoint → Request → Request → Type 0
    Change = EndpointChange req

    lists_requests : Effects list_all (handle_list_requests server zero_time req)
    unfolding handle_list_requests
    lists_requests =
        answered server zero_time req p (Change list_all) 200 requests_body
          (λ actor. list_requests server.service actor (filter_of req)) w
          (λ w'.
            Does-Keeps p _ _ w'
              (Keeps-list_requests server zero_time req p (named_actor req) (filter_of req)))
          v

    gets : Effects get_one (handle_get_request server zero_time req)
    unfolding handle_get_request
    gets =
        answered server zero_time req p (Change get_one) 200 request_body
          (λ actor. get_request server.service actor (req.param "id")) w
          (λ w'.
            Does-Keeps p _ _ w'
              (Keeps-get_request server zero_time req p (named_actor req) (req.param "id")))
          v

    lists_audit : Effects audit_of (handle_audit server zero_time req)
    unfolding handle_audit
    lists_audit =
        answered server zero_time req p (Change audit_of) 200 entries_body
          (λ actor. list_audit server.service actor (req.param "id")) w
          (λ w'.
            Does-Keeps p _ _ w'
              (Keeps-list_audit server zero_time req p (named_actor req) (req.param "id")))
          v

    submits : Effects submit_one (handle_submit_request server zero_time req)
    unfolding handle_submit_request
    submits =
        answered server zero_time req p (Change submit_one) 200 request_body
          (λ actor. submit_request server.service actor (req.param "id") (key_of req)) w
          (Does-submit_request server.service p (named_actor req) (req.param "id") (key_of req)) v

    approves : Effects approve_one (handle_approve_request server zero_time req)
    unfolding handle_approve_request
    approves =
        answered server zero_time req p (Change approve_one) 200 request_body
          (λ actor. bind req.review_input >>= λ input.
            approve_request server.service zero_time actor (req.param "id") (key_of req)
              input.comment)
          w
          (λ w'.
            Does->>= p _ _ _ w' (Keeps-bind server zero_time req p req.review_input)
              (λ v' input e b.
                Does-approve_request server.service zero_time p (named_actor req) (req.param "id")
                  (key_of req) input.comment _))
          v

    rejects : Effects reject_one (handle_reject_request server zero_time req)
    unfolding handle_reject_request
    rejects =
        answered server zero_time req p (Change reject_one) 200 request_body
          (λ actor. bind req.review_input >>= λ input.
            reject_request server.service zero_time actor (req.param "id") (key_of req)
              input.comment)
          w
          (λ w'.
            Does->>= p _ _ _ w' (Keeps-bind server zero_time req p req.review_input)
              (λ v' input e b.
                Does-reject_request server.service zero_time p (named_actor req) (req.param "id")
                  (key_of req) input.comment _))
          v

    records_result : Effects execution_result (handle_execution_result server zero_time req)
    unfolding handle_execution_result
    records_result =
        answered server zero_time req p (Change execution_result) 200 request_body
          (λ actor. bind req.result_input >>= λ input.
            record_execution_result server.service actor (req.param "id") input.success input.error)
          w (Does-record server zero_time req p req.result_input) v

    -- Each endpoint on requests that are there.
    pub handle-Ends : (e : Endpoint) → IsOnHeld e → Effects e (handle server zero_time req e)
    unfolding handle
    handle-Ends health held = p.ends-none (Change health) w.state w.state (p.rest w.state v)
    handle-Ends list_all held = lists_requests
    handle-Ends get_one held = gets
    handle-Ends submit_one held = submits
    handle-Ends approve_one held = approves
    handle-Ends reject_one held = rejects
    handle-Ends execution_result held = records_result
    handle-Ends audit_of held = lists_audit
    handle-Ends ready_check held = absurd held
    handle-Ends create_requests held = absurd held
