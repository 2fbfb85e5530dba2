-- ===== src/Tests/Replays.antt =====
-- The theorems on repeated calls at concrete data.
use review_workflow.Base.{◌≡◌, refl, inl, trim_space, trim_left, trim_right, is_space, lookup}
use review_workflow.Domain.{approved}
use review_workflow.Repository.Memory.{Memory}
use review_workflow.Application.Errors.{ok, err, err_conflict, wrap}
use review_workflow.Application.Monad.{World}
use review_workflow.Application.Requests.{submit_request}
use review_workflow.Application.Requests.Consumed.{submit_request-consumes_key}
use review_workflow.Application.Review.{approve_request}
use review_workflow.Application.Review.Outcomes.{approve_request-again}
use review_workflow.Tests.{service, zero_time, alice, failed_request, with_status, holding}

abbrev failures : World Memory
failures = holding failed_request

abbrev refused : World Memory
refused = (submit_request service alice "req_00" "late" failures).1

submit_request-consumes_key_example :
    ((submit_request service alice "req_00" "late" failures).0
      ≡ err (wrap err_conflict "only draft requests can be submitted"))
    × (refused.state.requests ≡ failures.state.requests)
    × (submit_request service alice "req_00" "late" refused ≡ (ok failed_request, refused))
unfolding lookup trim_space trim_left trim_right is_space
submit_request-consumes_key_example =
    submit_request-consumes_key service alice "req_00" "late" failures failed_request refl refl refl
      refl refl

abbrev approvals : World Memory
approvals = holding (with_status approved)

approve_request-again_example :
    let (result, w) = approve_request service zero_time alice "req_00" "mine" "ok" approvals in
    (result ≡ ok (with_status approved))
    × (w.state.requests ≡ approvals.state.requests)
    × (w.state.audit ≡ approvals.state.audit)
unfolding lookup trim_space trim_left trim_right is_space
approve_request-again_example =
    approve_request-again service zero_time alice "req_00" "mine" "ok" approvals
      (with_status approved) refl refl refl (inl refl)
