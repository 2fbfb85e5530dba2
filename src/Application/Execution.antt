-- ===== src/Application/Execution.antt =====
-- Execution results, reminders and the worker's passes in internal/application/service.go.
use review_workflow.Base.{
  Bool, true, false, ◌||◌, String, ◌<>◌, Option, none, some, List, [], ◌∷◌, trim_space,
  if◌then◌else◌,
}
use review_workflow.Base.Int.{ℤ, pos, ◌+ℤ◌, ◌-ℤ◌, wrap64, incr, mul64, leb_ℤ}
use review_workflow.Domain.{
  Time, Duration, executed, execution_failed, is_approved, is_execution_failed, is_admin,
  is_reviewer, Actor, Request,
}
use review_workflow.Application.Errors.{Result, ok, err, err_forbidden, err_conflict, wrap}
use review_workflow.Application.Monad.{
  Service, M, ◌>>=◌, ◌>>◌, pure, call, attempt, ignore, guard, now_utc, fresh_id,
}
use review_workflow.Application.Helpers.{system_actor, audit_for}

pub record ExecutionResultInput : Type 0 where
  pub success : Bool
  pub error : String
  pub external_reference : String

-- `t.Add(d)`, and `-d` on a duration.
unfoldable pub add_duration : Time → Duration → Time
unfolding ◌+ℤ◌
add_duration t d = t +ℤ d

unfoldable pub negate : Duration → Duration
unfolding ◌-ℤ◌ wrap64
negate d = wrap64 (pos 0 -ℤ d)

-- When the next attempt is due after `attempts` failures, if there is to be one.
unfoldable pub next_attempt : ℤ → Duration → Time → ℤ → Option Time
unfolding add_duration mul64
next_attempt max_attempts retry_base at attempts =
    if leb_ℤ max_attempts attempts then none else some (add_duration at (mul64 attempts retry_base))

-- The request after an execution that ended at `at`.
unfoldable pub finish : ℤ → Duration → Time → Bool → String → Request → Request
unfolding next_attempt
finish max_attempts retry_base at success message req =
    let attempts = incr req.execution_attempts in
    let req' = record req {
      updated_at = at;
      version = incr req.version;
      execution_attempts = attempts;
    } in
    if success
    then record req' {
      status = executed;
      executed_at = some at;
      next_execution_at = none;
      last_execution_error = "";
    }
    else record req' {
      status = execution_failed;
      last_execution_error = trim_space message;
      next_execution_at = next_attempt max_attempts retry_base at attempts;
    }

-- A request that is reminded of at `at`.
unfoldable pub remind : Time → Request → Request
remind at req = record req {
  version = incr req.version;
  reminder_count = incr req.reminder_count;
  updated_at = at;
  last_reminded_at = some at;
}

-- What an execution is recorded as, by the executor's error.
abbrev pub succeeded : Option String → Bool
succeeded none = true
succeeded (some _) = false

abbrev pub failure : Option String → String
failure none = ""
failure (some message) = message

abbrev pub job_status : Option String → String
job_status none = "succeeded"
job_status (some _) = "failed"

abbrev pub job_message : Option String → String
job_message none = "execution completed"
job_message (some message) = message

module _ {S : Type 0} (svc : Service S) where
  -- The audit entry of an execution.
  unfoldable pub execution_audited : Actor → Bool → String → Request → M S Request
  unfolding audit_for
  execution_audited actor success message req' = do
    entry ←
        audit_for svc req' actor (if success then "execution_succeeded" else "execution_failed") (
          if success
          then "request executed successfully"
          else "execution failed: " <> trim_space message)
    call (svc.store.append_audit entry)
    pure req'

  unfoldable pub apply_execution_result : Request → Actor → Bool → String → M S Request
  unfolding finish execution_audited
  apply_execution_result req actor success message = do
    guard (is_approved req.status || is_execution_failed req.status)
        (wrap err_conflict "request is not ready for execution updates")
    at ← now_utc svc.runtime
    let req' = finish svc.execution_max_attempts svc.execution_retry_base at success message req
    call (svc.store.update_request req' req.version)
    execution_audited actor success message req'

  unfoldable pub record_execution_result : Actor → String → Bool → String → M S Request
  record_execution_result actor request_id success message = do
    guard (is_admin actor.role || is_reviewer actor.role) err_forbidden
    req ← call (svc.store.get_request request_id)
    apply_execution_result req actor success message

  -- The rest of a reminder, by the error of the update.
  unfoldable pub remind_updated : Time → Request → Result (Unit {0}) → M S (Unit {0})
  unfolding audit_for
  remind_updated at req' (err _) = pure tt
  remind_updated at req' (ok _) = do
    entry ← audit_for svc req' system_actor "reminder_sent" "review reminder generated"
    ignore (call (svc.store.append_audit entry))
    id ← fresh_id svc.runtime "job"
    ignore (
        call (
          svc.store.append_job_run (record {
            id = id;
            request_id = req'.id;
            job_type = "reminder";
            status = "succeeded";
            attempt = req'.reminder_count;
            message = "reminder recorded";
            executed_at = at;
          })))

  unfoldable pub remind_one : Time → Request → M S (Unit {0})
  unfolding remind remind_updated
  remind_one at req = do
    let req' = remind at req
    updated ← attempt (call (svc.store.update_request req' req.version))
    remind_updated at req' updated

  unfoldable pub remind_all : Time → List Request → M S (Unit {0})
  remind_all at [] = pure tt
  remind_all at (req ∷ reqs) = remind_one at req >> remind_all at reqs

  unfoldable pub process_due_reminders : ℤ → M S (Unit {0})
  unfolding add_duration negate
  process_due_reminders limit = do
    at ← now_utc svc.runtime
    reqs ← call (
        svc.store.list_requests_needing_reminder (add_duration at (negate svc.reminder_after))
          limit)
    remind_all at reqs

  unfoldable pub execute_one : Time → Request → M S (Unit {0})
  execute_one at req = do
    id ← fresh_id svc.runtime "job"
    let outcome = svc.executor.execute req
    ignore (apply_execution_result req system_actor (succeeded outcome) (failure outcome))
    ignore (
        call (
          svc.store.append_job_run (record {
            id = id;
            request_id = req.id;
            job_type = "execution";
            status = job_status outcome;
            attempt = incr req.execution_attempts;
            message = job_message outcome;
            executed_at = at;
          })))

  unfoldable pub execute_all : Time → List Request → M S (Unit {0})
  execute_all at [] = pure tt
  execute_all at (req ∷ reqs) = execute_one at req >> execute_all at reqs

  unfoldable pub process_due_executions : ℤ → M S (Unit {0})
  process_due_executions limit = do
    at ← now_utc svc.runtime
    reqs ← call (svc.store.list_requests_ready_for_execution at limit)
    execute_all at reqs
