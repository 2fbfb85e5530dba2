-- ===== src/Tests/Stores.antt =====
-- The theorems on internal/repository/postgres/store.go over a concrete database.
use review_workflow.Base.{true, ap, eq_iff, ◌≢◌, refl, some, arith, [], ◌∷◌, ◌||◌}
use review_workflow.Base.Int.{pos, pos_part}
use review_workflow.Domain.{approved, rejected, pending_review, Request, IdempotencyRecord}
use review_workflow.Application.Errors.{ok}
use review_workflow.Application.Monad.{Service, World}
use review_workflow.Application.Requests.{submit_request}
use review_workflow.Application.Review.{approve_request, reject_request}
use review_workflow.Application.Execution.{
  record_execution_result, process_due_executions, process_due_reminders,
}
use review_workflow.Application.Contract.Passes.{passes-Moved}
use review_workflow.Application.Contract.Worker.{WorkerExecution, WorkerReminder}
use review_workflow.Application.Contract.{Contract}
use review_workflow.Application.Contract.Moved.{Moved}
use review_workflow.Application.Contract.Race.{Reads}
use review_workflow.Application.Contract.Helpers.{Named}
use review_workflow.Application.Contract.Submit.{SubmitChange}
use review_workflow.Application.Contract.Review.{ReviewChange}
use review_workflow.Application.Contract.Execution.{ExecutionChange}
use review_workflow.Application.Contract.Calls.{calls-Moved}
use review_workflow.Repository.Memory.{select, ready_for_execution, needs_reminder}
use review_workflow.Repository.Pool.Database.{Tables}
use review_workflow.Repository.Postgres.{
  postgres_store, collect_requests, create_request, update_request, create_idempotency, get_request,
  get_idempotency, list_requests_ready_for_execution, list_requests_needing_reminder,
}
use review_workflow.Repository.Postgres.Held.{HasKeys, held}
use review_workflow.Repository.Postgres.Fulfils.{postgres_store-Contract}
use review_workflow.Repository.Postgres.Laws.{update_request-wins_once, create_request-get_request}
use review_workflow.Repository.Postgres.Keys.{create_idempotency-owns, Gives, put}
use review_workflow.Repository.Postgres.Due.{
  IsFirst, reminded_then, list_requests_ready_for_execution-IsFirst,
  list_requests_needing_reminder-IsFirst,
}
use review_workflow.Tests.Database.{pool, as_tables, pool-IsDatabase}
use review_workflow.Tests.{
  runtime, service, zero_time, rex, failed_request, drafted_request, with_status, submission_record,
}

abbrev pub empty : Tables
empty = record { requests = []; audit = []; reviews = []; idempotency = []; job_runs = [] }

abbrev other_request : Request
other_request = record failed_request { id = "req_01"; next_execution_at = some (pos 14000) }

abbrev pub filled : Tables
filled = record empty { requests = failed_request ∷ other_request ∷ [] }

pub filled-HasKeys : HasKeys as_tables filled
filled-HasKeys = (((λ e. ground (arith, (eq_iff "req_01" "req_00").1 e)), tt), (tt, tt))

postgres_store-Contract_example :
    Contract (postgres_store pool) (HasKeys as_tables) (held as_tables)
postgres_store-Contract_example = postgres_store-Contract pool as_tables pool-IsDatabase

abbrev retried : Request
retried = record failed_request { version = pos 5 }

abbrev after_retry : Tables
after_retry = (update_request pool retried (pos 4) filled).1

update_request-wins_once_example : (update_request pool retried (pos 4) after_retry).0 ≢ ok tt
unfolding update_request select
update_request-wins_once_example =
    update_request-wins_once pool as_tables pool-IsDatabase retried retried (pos 4) filled
      after_retry filled-HasKeys refl (λ e. omega (arith, ap pos_part e)) refl refl

create_request-get_request_example :
    Reads drafted_request
      (get_request pool drafted_request.id (create_request pool drafted_request empty).1).0
unfolding create_request
create_request-get_request_example =
    create_request-get_request pool as_tables pool-IsDatabase drafted_request empty
      (create_request pool drafted_request empty).1 tt refl refl

abbrev later_record : IdempotencyRecord
later_record = record submission_record { fingerprint = "bob" }

abbrev claimed : Tables
claimed = (create_idempotency pool submission_record empty).1

create_idempotency-owns_example :
    Gives pool as_tables
      (put pool as_tables submission_record)
      (get_idempotency pool submission_record.scope submission_record.key claimed).0
    × ((create_idempotency pool later_record claimed).0 ≢ ok tt)
unfolding create_idempotency
create_idempotency-owns_example =
    create_idempotency-owns pool as_tables pool-IsDatabase submission_record later_record empty
      claimed (refl, refl) refl refl

list_requests_ready_for_execution-IsFirst_example :
    IsFirst
      (λ r. r.next_execution_at)
      (pos 1)
      (collect_requests (select (ready_for_execution (pos 20000)) filled.requests))
      (list_requests_ready_for_execution pool (pos 20000) (pos 1) filled).0
list_requests_ready_for_execution-IsFirst_example =
    list_requests_ready_for_execution-IsFirst pool as_tables pool-IsDatabase (pos 20000) (pos 1)
      filled

abbrev pub waiting : Tables
waiting = record empty { requests = with_status pending_review ∷ [] }

list_requests_needing_reminder-IsFirst_example :
    IsFirst
      (λ r. r.submitted_at)
      (pos 25)
      (collect_requests
        (select (λ r. needs_reminder (pos 9000) r || reminded_then (pos 9000) r) waiting.requests))
      (list_requests_needing_reminder pool (pos 9000) (pos 0) waiting).0
list_requests_needing_reminder-IsFirst_example =
    list_requests_needing_reminder-IsFirst pool as_tables pool-IsDatabase (pos 9000) (pos 0) waiting

abbrev pub postgres_service : Service Tables
postgres_service = record {
  store = postgres_store pool;
  executor = service.executor;
  default_reviewer_id = service.default_reviewer_id;
  reminder_after = service.reminder_after;
  execution_retry_base = service.execution_retry_base;
  execution_max_attempts = service.execution_max_attempts;
  runtime = runtime;
}

abbrev waiting_world : World Tables
waiting_world = record { state = waiting; ticks = 0; draws = 0 }

calls-Moved_example :
    let c = postgres_store-Contract pool as_tables pool-IsDatabase in
    Moved c
      (Named "req_00" (SubmitChange rex))
      waiting
      (submit_request postgres_service rex "req_00" "k" waiting_world).1.state
    × Moved c
        (Named "req_00" (ReviewChange approved rex))
        waiting
        (approve_request postgres_service zero_time rex "req_00" "k" "fine" waiting_world).1.state
    × Moved c
        (Named "req_00" (ReviewChange rejected rex))
        waiting
        (reject_request postgres_service zero_time rex "req_00" "k" "fine" waiting_world).1.state
    × Moved c
        (Named "req_00" (ExecutionChange rex true))
        waiting
        (record_execution_result postgres_service rex "req_00" true "fine" waiting_world).1.state
calls-Moved_example =
    calls-Moved postgres_service zero_time (postgres_store-Contract pool as_tables pool-IsDatabase)
      rex "req_00" "k" "fine" true waiting_world (tt, tt)

abbrev due_world : World Tables
due_world = record { state = filled; ticks = 20; draws = 0 }

passes-Moved_example :
    let c = postgres_store-Contract pool as_tables pool-IsDatabase in
    Moved c
      (WorkerExecution postgres_service)
      filled
      (process_due_executions postgres_service (pos 25) due_world).1.state
    × Moved c WorkerReminder filled
        (process_due_reminders postgres_service (pos 25) due_world).1.state
passes-Moved_example =
    passes-Moved postgres_service (postgres_store-Contract pool as_tables pool-IsDatabase) (pos 25)
      due_world filled-HasKeys
