-- ===== src/Application/Contract/Worker.antt =====
-- What the worker does with one request over a store.
use review_workflow.Base.{◌≡◌, ◌∙◌, refl, String}
use review_workflow.Base.Int.{incr}
use review_workflow.Domain.{pending_review, Time, Request, JobRun}
use review_workflow.Application.Errors.{Result, ok, err}
use review_workflow.Application.Helpers.{system_actor}
use review_workflow.Application.Monad.{Service, World, ◌>>◌, ignore, call, fresh_id}
use review_workflow.Application.Execution.{
  execute_one, remind_one, remind_updated, remind, succeeded, failure, job_status, job_message,
  apply_execution_result,
}
use review_workflow.Application.Contract.{Agrees, IsPending}
use review_workflow.Application.Contract.Protocol.{Protocol}
use review_workflow.Application.Contract.Keeps.{
  Keeps, keeps_rules, Keeps-fresh_id, Does, Does->>=, Does-then, Does-ignore, Does-attempt,
  Does-update,
}
use review_workflow.Application.Contract.Helpers.{Revised, Keeps-audit_for}
use review_workflow.Application.Contract.Execution.{ExecutionChange, Does-apply_execution_result}

-- A change of `r` itself.
abbrev pub Exactly : Request → (Request → Request → Type 0) → Request → Request → Type 0
Exactly r P o n = (o ≡ r) × P o n

-- A pending request is reminded of.
abbrev pub WorkerReminder : Request → Request → Type 0
WorkerReminder r r' =
    (r.status ≡ pending_review)
    × (r'.status ≡ pending_review)
    × (r'.execution_attempts ≡ r.execution_attempts)
    × (r'.reminder_count ≡ incr r.reminder_count)
    × Revised r r'

-- A request is executed by the worker, with the result that the executor has for it.
abbrev pub WorkerExecution : {S : Type 0} → Service S → Request → Request → Type 0
WorkerExecution svc r r' = ExecutionChange system_actor (succeeded (svc.executor.execute r)) r r'

module _ {S : Type 0} (svc : Service S) (p : Protocol svc.store) where
  Keeps-recorded : (run : JobRun) → Keeps p (ignore (call (svc.store.append_job_run run)))
  Keeps-recorded run = search (keeps_rules, p.run_waits)

  abbrev execution_run : Time → Request → String → JobRun
  execution_run at r id = record {
    id = id;
    request_id = r.id;
    job_type = "execution";
    status = job_status (svc.executor.execute r);
    attempt = incr r.execution_attempts;
    message = job_message (svc.executor.execute r);
    executed_at = at;
  }

  pub Does-execute_one :
      (at : Time) (r : Request) (w : World S)
      → p.Knows r w.state
      → Does p (Exactly r (WorkerExecution svc)) (execute_one svc at r) w
  unfolding execute_one
  Does-execute_one at r w known =
      let outcome = svc.executor.execute r in
      Does->>= p _ (fresh_id svc.runtime "job")
        (λ id.
          ignore (apply_execution_result svc r system_actor (succeeded outcome) (failure outcome))
          >> ignore (call (svc.store.append_job_run (execution_run at r id))))
        w (Keeps-fresh_id p svc.runtime "job")
        (λ v' id e same.
          Does-then p _ _ _ _
            (Does-ignore p _ _ _ (
              Does-apply_execution_result svc p system_actor (succeeded outcome) (failure outcome)
                (Exactly r (WorkerExecution svc)) r _ known refl (λ new change. (refl, change))))
            (λ u. Keeps-recorded (execution_run at r id)))

  Keeps-remind_updated :
      (at : Time) (req : Request) (result : Result (Unit {0}))
      → Keeps p (remind_updated svc at req result)
  unfolding remind_updated
  Keeps-remind_updated at req (err e) = search keeps_rules
  Keeps-remind_updated at req (ok u) =
      search (keeps_rules, Keeps-audit_for svc p, p.audit_waits, p.run_waits) depth 10

  remind-WorkerReminder :
      (at : Time) (r new : Request) → IsPending r → Agrees new (remind at r) → WorkerReminder r new
  unfolding remind
  remind-WorkerReminder at r new pending agrees = (
    pending,
    agrees.status_kept ∙ pending,
    agrees.attempts_kept,
    agrees.reminders_kept,
    record {
      same_requester = agrees.requester_kept;
      same_type = agrees.type_kept;
      same_target = agrees.target_kept;
      same_justification = agrees.justification_kept;
      bumped = agrees.version_kept;
    },
  )

  remind_id : (at : Time) (r : Request) → (remind at r).id ≡ r.id
  unfolding remind
  remind_id at r = refl

  pub Does-remind_one :
      (at : Time) (r : Request) (w : World S)
      → p.Knows r w.state
      → IsPending r
      → Does p (Exactly r WorkerReminder) (remind_one svc at r) w
  unfolding remind_one
  Does-remind_one at r w known pending =
      Does-then p _ _ _ w
        (Does-attempt p _ _ w (
          Does-update p (Exactly r WorkerReminder) (remind at r) r w known (remind_id at r)
            (λ new agrees. (refl, remind-WorkerReminder at r new pending agrees))))
        (λ result. Keeps-remind_updated at (remind at r) result)
