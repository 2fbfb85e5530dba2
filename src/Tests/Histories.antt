-- ===== src/Tests/Histories.antt =====
-- The theorems on sequences of calls, at the run of one request.
use review_workflow.Base.{List, ◌≡◌, refl, ◌++◌, true, Any, some, lookup, length, arith}
use review_workflow.Base.Int.{pos, incr, wrap64, ◌<ℤ◌}
use review_workflow.Domain.{Request}
use review_workflow.Repository.Memory.{Memory, new_store, slice_at, update_request, replace_current}
use review_workflow.Application.Monad.{World}
use review_workflow.Repository.Memory
use review_workflow.Application.Requests
use review_workflow.Application.Review
use review_workflow.Application.Helpers
use review_workflow.Application.Execution
use review_workflow.Application.Executor
use review_workflow.Domain.{validate_actor}
use review_workflow.Domain.Id.{new_id, hex_encode}
use review_workflow.Base.{insert, trim_space, trim_left, trim_right, is_space, values}
use review_workflow.Base.Int.{mul64, ◌+ℤ◌, ◌-ℤ◌, ◌*ℤ◌}
use review_workflow.Workflow.{EffectsOf, Decides}
use review_workflow.Workflow.Sound.{is_due}
use review_workflow.Workflow.Consistent.{IsConsistent}
use review_workflow.Workflow.Runs.{Call, run, perform, AllFresh}
use review_workflow.Workflow.Runs.Laws.{
  run-Effects, run-IsConsistent, audit_counts_versions, scheduled_below_bound,
  released_was_approved, empty-IsConsistent,
}
use review_workflow.Workflow.Runs.History.{run-Follows, Follows}
use review_workflow.Tests.{
  service, zero_time, start, creation, submitting, approval, trial, failed_request, drafted_request,
}

abbrev history : List Call
history = creation ++ submitting ++ approval ++ trial

abbrev after : Memory
after = (run service zero_time history start).state

positive : pos 0 <ℤ service.execution_max_attempts
positive = omega arith

fresh : AllFresh service zero_time history start
unfolding lookup
fresh = (refl, (tt, (tt, (tt, tt))))

is_empty : start.state ≡ new_store
unfolding new_store
is_empty = refl

consistent : IsConsistent service.execution_max_attempts start.state
consistent = rw is_empty (empty-IsConsistent service zero_time positive)

is_stored : lookup "req_00" after.requests ≡ some failed_request
unfolding run perform lookup insert trim_space is_space trim_left trim_right incr wrap64 mul64 ◌+ℤ◌
    ◌-ℤ◌ ◌*ℤ◌ values new_id hex_encode validate_actor Memory.create_request Memory.get_request
    Memory.append_audit Memory.append_at Memory.get_idempotency Memory.create_idempotency
    Memory.compound Memory.update_request Memory.replace_current Memory.create_review
    Memory.append_job_run Memory.list_requests_ready_for_execution Memory.collect
    Memory.ready_for_execution Requests.create_draft Requests.submit_request Requests.submit
    Review.approve_request Review.review_request Review.decide Helpers.audit_for Helpers.can_review
    Helpers.decision_description Helpers.ensure_idempotency Helpers.fingerprint Helpers.join
    Helpers.require_owned_or_admin Execution.process_due_executions Execution.execute_all
    Execution.execute_one Execution.apply_execution_result Execution.finish Execution.next_attempt
    Execution.add_duration Executor.simulated_execute
is_stored = refl

run-Effects_example : EffectsOf service start.state after
run-Effects_example = run-Effects service zero_time positive history start consistent fresh

run-IsConsistent_example : IsConsistent service.execution_max_attempts after
run-IsConsistent_example = run-IsConsistent service zero_time positive history start is_empty fresh

audit_counts_versions_example :
    wrap64 (pos (length (slice_at "req_00" after.audit))) ≡ incr failed_request.version
audit_counts_versions_example =
    audit_counts_versions service zero_time positive history start is_empty fresh "req_00"
      failed_request is_stored

scheduled_below_bound_example :
    (is_due failed_request.status ≡ true)
    × (failed_request.execution_attempts <ℤ service.execution_max_attempts)
scheduled_below_bound_example =
    scheduled_below_bound service zero_time positive history start is_empty fresh "req_00"
      failed_request is_stored (λ e. cc)

released_was_approved_example :
    Any (Decides "approved" "alice" "reviewer-1") (slice_at "req_00" after.audit)
released_was_approved_example =
    released_was_approved service zero_time positive history start is_empty fresh "req_00"
      failed_request is_stored refl

abbrev created : World Memory
created = run service zero_time creation start

created-IsConsistent : IsConsistent service.execution_max_attempts created.state
unfolding lookup
created-IsConsistent =
    run-IsConsistent service zero_time positive creation start is_empty (refl, tt)

is_created : lookup "req_00" created.state.requests ≡ some drafted_request
unfolding run perform lookup insert trim_space is_space trim_left trim_right new_id hex_encode
    validate_actor Memory.create_request Memory.append_audit Memory.append_at Requests.create_draft
    Helpers.audit_for
is_created = refl

abbrev later_calls : List Call
later_calls = submitting ++ approval ++ trial

run-Follows_example :
    (r : Request) × (lookup "req_00" (run service zero_time later_calls created).state.requests
      ≡ some r)
    × Follows drafted_request r
run-Follows_example =
    run-Follows service zero_time positive later_calls created created-IsConsistent
      (tt, (tt, (tt, tt))) "req_00" drafted_request is_created
