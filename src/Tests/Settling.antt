-- ===== src/Tests/Settling.antt =====
-- The theorem on repeated execution passes, at the run of one request.
use review_workflow.Base.{inr, ◌≡◌, refl, ◌++◌, some, lookup, arith}
use review_workflow.Base.Int.{pos, incr, wrap64, ◌<ℤ◌}
use review_workflow.Domain.{Request}
use review_workflow.Repository.Memory.{Memory, new_store, slice_at, update_request, replace_current}
use review_workflow.Application.Monad.{World}
use review_workflow.Repository.Memory
use review_workflow.Application.Requests
use review_workflow.Application.Review
use review_workflow.Application.Helpers
use review_workflow.Application.Execution
use review_workflow.Application.Executor
use review_workflow.Domain.{validate_actor}
use review_workflow.Domain.Id.{new_id, hex_encode}
use review_workflow.Base.{insert, trim_space, trim_left, trim_right, is_space, values}
use review_workflow.Base.Int.{mul64, ◌+ℤ◌, ◌-ℤ◌, ◌*ℤ◌}
use review_workflow.Workflow.Consistent.{IsConsistent}
use review_workflow.Workflow.Runs.{run, perform}
use review_workflow.Workflow.Runs.Laws.{run-IsConsistent}
use review_workflow.Tests.{
  service, zero_time, start, creation, submitting, approval, trial, failed_request,
}
use review_workflow.Workflow.Passes.Settling.{
  no_more, pass_after, Settled, wait, IsOnTime, process_due_executions-Settled,
}
use review_workflow.Workflow.Passes.Taken.{pass}

abbrev world : World Memory
world = run service zero_time (creation ++ submitting ++ approval ++ trial) start

abbrev waited : World Memory
waited = wait service (pos 25) "req_00" 20 world

abbrev once : World Memory
once = pass service (pos 25) "req_00" waited

abbrev waited_again : World Memory
waited_again = wait service (pos 25) "req_00" 20 once

abbrev twice : World Memory
twice = pass service (pos 25) "req_00" waited_again

positive : pos 0 <ℤ service.execution_max_attempts
positive = omega arith

consistent : IsConsistent service.execution_max_attempts world.state
unfolding lookup new_store
consistent =
    run-IsConsistent service zero_time positive (creation ++ submitting ++ approval ++ trial) start
      refl (refl, (tt, (tt, (tt, tt))))

on_time : IsOnTime service (pos 25) "req_00" waited
unfolding run perform lookup insert trim_space is_space trim_left trim_right incr wrap64 mul64 ◌+ℤ◌
    ◌-ℤ◌ ◌*ℤ◌ values new_id hex_encode validate_actor Memory.create_request Memory.get_request
    Memory.append_audit Memory.append_at Memory.get_idempotency Memory.create_idempotency
    Memory.compound Memory.update_request Memory.replace_current Memory.create_review
    Memory.append_job_run Memory.list_requests_ready_for_execution Memory.collect Memory.select
    Memory.ready_for_execution Requests.create_draft Requests.submit_request Requests.submit
    Review.approve_request Review.review_request Review.decide Helpers.audit_for Helpers.can_review
    Helpers.decision_description Helpers.ensure_idempotency Helpers.fingerprint Helpers.join
    Helpers.require_owned_or_admin Execution.process_due_executions Execution.execute_all
    Execution.execute_one Execution.apply_execution_result Execution.finish Execution.next_attempt
    Execution.add_duration Executor.simulated_execute
on_time = (inr (omega arith), (_, refl, omega arith))

IsOnTime-again : IsOnTime service (pos 25) "req_00" waited_again
unfolding run perform lookup insert trim_space is_space trim_left trim_right incr wrap64 mul64 ◌+ℤ◌
    ◌-ℤ◌ ◌*ℤ◌ values new_id hex_encode validate_actor Memory.create_request Memory.get_request
    Memory.append_audit Memory.append_at Memory.get_idempotency Memory.create_idempotency
    Memory.compound Memory.update_request Memory.replace_current Memory.create_review
    Memory.append_job_run Memory.list_requests_ready_for_execution Memory.collect Memory.select
    Memory.ready_for_execution Requests.create_draft Requests.submit_request Requests.submit
    Review.approve_request Review.review_request Review.decide Helpers.audit_for Helpers.can_review
    Helpers.decision_description Helpers.ensure_idempotency Helpers.fingerprint Helpers.join
    Helpers.require_owned_or_admin Execution.process_due_executions Execution.execute_all
    Execution.execute_one Execution.apply_execution_result Execution.finish Execution.next_attempt
    Execution.add_duration Executor.simulated_execute
IsOnTime-again = (inr (omega arith), (_, refl, omega arith))

process_due_executions-Settled_example :
    (r' : Request) × (lookup "req_00" twice.state.requests ≡ some r') × Settled (pos 3) r'
unfolding run perform lookup insert trim_space is_space trim_left trim_right incr wrap64 mul64 ◌+ℤ◌
    ◌-ℤ◌ ◌*ℤ◌ values new_id hex_encode validate_actor Memory.create_request Memory.get_request
    Memory.append_audit Memory.append_at Memory.get_idempotency Memory.create_idempotency
    Memory.compound Memory.update_request Memory.replace_current Memory.create_review
    Memory.append_job_run Memory.list_requests_ready_for_execution Memory.collect Memory.select
    Memory.ready_for_execution Requests.create_draft Requests.submit_request Requests.submit
    Review.approve_request Review.review_request Review.decide Helpers.audit_for Helpers.can_review
    Helpers.decision_description Helpers.ensure_idempotency Helpers.fingerprint Helpers.join
    Helpers.require_owned_or_admin Execution.process_due_executions Execution.execute_all
    Execution.execute_one Execution.apply_execution_result Execution.finish Execution.next_attempt
    Execution.add_duration Executor.simulated_execute
process_due_executions-Settled_example =
    process_due_executions-Settled service (pos 25) "req_00" 3 refl positive (omega arith) 2 1 world
      twice failed_request consistent refl (λ e. cc) refl (omega arith)
      (pass_after 20 on_time (pass_after 20 IsOnTime-again no_more))
