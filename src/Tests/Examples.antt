-- ===== src/Tests/Examples.antt =====
-- The theorems on single calls at concrete data.
use review_workflow.Base.{
  ◌≡◌, ◌⊎◌, refl, inl, inr, All, Any, ◌++◌, ◌==◌, true, eq_iff, some, List, [], ◌∷◌, lookup, insert,
  values, trim_space, trim_left, trim_right, is_space, arith,
}
use mathlib.Core.List.{Perm}
use review_workflow.Base.Int.{pos, ◌≤ℤ◌, incr}
use review_workflow.Domain.{
  Actor, reviewer, approved, pending_review, other_status, Request, RequestFilter,
}
use review_workflow.Domain.Id.{new_id}
use review_workflow.Repository.Memory.{
  Memory, sort_by, select, insert_by, matches_filter, ready_for_execution, needs_reminder,
}
use review_workflow.Repository.Memory
use review_workflow.Repository.Memory.Listing.{IsMap-keyed}
use review_workflow.Repository.Memory.Query.{list_requests_correct, IsSortedBy, Matches}
use review_workflow.Application.Errors.{ok, err, err_forbidden}
use review_workflow.Application.Monad.{World}
use review_workflow.Application.Helpers
use review_workflow.Application.Requests
use review_workflow.Application.Requests.Replay.{submit_request-twice}
use review_workflow.Application.Requests.Visibility.{
  get_request-MayView, list_requests-own, MayView,
}
use review_workflow.Application.Authority.{MayDecide}
use review_workflow.Application.Review
use review_workflow.Application.Review.{zero_request}
use review_workflow.Application.Review.Outcomes.{approve_request-swallows_error, review-forbidden}
use review_workflow.Application.Execution
use review_workflow.Jobs.Worker.{Event, tick, cancelled, returned, waiting}
use review_workflow.Jobs.Worker
use review_workflow.Jobs.Worker.Passes.{worker, start-runs}
use review_workflow.Workflow.Passes.Outcome.{process_due_executions-HasOutcome, HasOutcome}
use review_workflow.Tests.{
  service, zero_time, alice, rex, failed_request, drafted_request, with_status, holding,
}

abbrev drafts : World Memory
drafts = holding drafted_request

abbrev failures : World Memory
failures = holding failed_request

abbrev approvals : World Memory
approvals = holding (with_status approved)

abbrev pendings : World Memory
pendings = holding (with_status pending_review)

abbrev everything : RequestFilter
everything = record { requester_id = ""; reviewer_id = ""; status = other_status "" }

abbrev due_request : Request
due_request = record failed_request { status = approved; next_execution_at = some (pos 0) }

process_due_executions-HasOutcome_example :
    All
      (HasOutcome service
        (Execution.process_due_executions service (pos 10) (holding due_request)).1.state)
      (due_request ∷ [])
unfolding lookup values select ready_for_execution
process_due_executions-HasOutcome_example =
    process_due_executions-HasOutcome service (pos 10) (holding due_request) (refl, refl, tt)

start-runs_example :
    let w = worker service (pos 60000) (pos 0) in
    (pos 1 ≤ℤ w.batch_size)
    × ((Worker.run w approvals).0 ≡ ok ([], []))
    × ((Any (λ e. e ≡ cancelled) (tick ∷ cancelled ∷ [])
          × ((Worker.start w (tick ∷ cancelled ∷ []) approvals).0 ≡ ok returned))
        ⊎ (All (λ e. e ≡ tick) (tick ∷ cancelled ∷ [])
            × ((Worker.start w (tick ∷ cancelled ∷ []) approvals).0 ≡ ok waiting)))
start-runs_example =
    start-runs service (pos 60000) (pos 0) (tick ∷ cancelled ∷ []) approvals (omega arith)

abbrev other_reviewer : Actor
other_reviewer = record { id = "reviewer-2"; role = reviewer }

other_reviewer-may_not : MayDecide other_reviewer (with_status pending_review) → ⊥
other_reviewer-may_not (inl e) = absurd (cc e)
other_reviewer-may_not (inr (e, assigned)) =
    let same : ("reviewer-1" == "reviewer-2") ≡ true =
      (eq_iff "reviewer-1" "reviewer-2").1 assigned in
    absurd (cc same)

review-forbidden_example :
    (Review.approve_request service zero_time other_reviewer "req_00" "approve-1" "ok" pendings
      ≡ (err err_forbidden, pendings))
    × (Review.reject_request service zero_time other_reviewer "req_00" "approve-1" "ok" pendings
        ≡ (err err_forbidden, pendings))
unfolding lookup
review-forbidden_example =
    review-forbidden service zero_time other_reviewer "req_00" "approve-1" "ok" pendings
      (with_status pending_review) refl refl (inl other_reviewer-may_not)

approve_request-swallows_error_example :
    Review.approve_request service zero_time rex "req_00" " " "ok" approvals
    ≡ (ok (zero_request zero_time), approvals)
unfolding lookup trim_space trim_left trim_right is_space
approve_request-swallows_error_example =
    approve_request-swallows_error service zero_time rex "req_00" " " "ok" approvals
      (with_status approved) refl refl (inl refl)

abbrev submission : World Memory
submission = (Requests.submit_request service alice "req_00" "submit-1" drafts).1

submit_request-twice_example :
    Requests.submit_request service alice "req_00" "submit-1" submission
    ≡ (ok (Requests.submit "reviewer-1" (pos 1000) drafted_request), submission)
unfolding lookup insert trim_space trim_left trim_right is_space incr Requests.submit_request
    Requests.submit Memory.get_request Memory.get_idempotency Memory.compound
    Memory.create_idempotency Memory.update_request Memory.replace_current Memory.append_audit
    Memory.append_at Helpers.require_owned_or_admin Helpers.ensure_idempotency Helpers.audit_for
    new_id
submit_request-twice_example =
    submit_request-twice service alice "req_00" "submit-1" drafts
      (Requests.submit "reviewer-1" (pos 1000) drafted_request)
      (IsMap-keyed drafts.state.requests (refl, refl, tt)) refl

get_request-MayView_example :
    (lookup "req_00" failures.state.requests ≡ some failed_request) × MayView rex failed_request
unfolding Requests.get_request Memory.get_request lookup Helpers.can_view
get_request-MayView_example = get_request-MayView service rex failures "req_00" failed_request refl

list_requests-own_example : All (λ r. r.requester_id ≡ "alice") (failed_request ∷ [])
unfolding Requests.list_requests Memory.list_requests values select matches_filter sort_by insert_by
    trim_space trim_left trim_right is_space
list_requests-own_example =
    list_requests-own service alice failures everything (failed_request ∷ []) refl refl

abbrev of_alice : RequestFilter
of_alice = record everything { requester_id = "alice" }

list_requests_correct_example :
    (rs others : List Request) × (Memory.list_requests of_alice failures.state
      ≡ (ok rs, failures.state))
    × Perm (rs ++ others) (failed_request ∷ [])
    × All (Matches of_alice) rs
    × All (λ r. Matches of_alice r → ⊥) others
    × IsSortedBy (λ r. r.created_at) rs
unfolding values
list_requests_correct_example = list_requests_correct of_alice failures.state
