-- ===== src/Application/Contract/Execution.antt =====
-- `RecordExecutionResult` over a store with the contract.
use review_workflow.Base.{◌≡◌, Bool, true, ◌||◌, String, arith, if◌then◌else◌}
use review_workflow.Base.Int.{incr}
use review_workflow.Domain.{
  Time, executed, execution_failed, Actor, Request, is_admin, is_reviewer, is_approved,
  is_execution_failed,
}
use review_workflow.Application.Monad.{Service, World}
use review_workflow.Application.Execution.{
  finish, apply_execution_result, record_execution_result, execution_audited,
}
use review_workflow.Application.Contract.{Agrees}
use review_workflow.Application.Contract.Protocol.{Protocol}
use review_workflow.Application.Contract.Keeps.{
  Keeps, keeps_rules, Keeps-guard, Does, Does->>=, Does-revise,
}
use review_workflow.Application.Contract.Helpers.{
  Named, Revised, Keeps-get, Keeps-audit_for, guard-passed,
}

-- An approved or failed request is marked executed or failed, by an admin or a reviewer, and its
-- attempts go up by one.
abbrev pub ExecutionChange : Actor → Bool → Request → Request → Type 0
ExecutionChange actor success r r' =
    ((is_admin actor.role || is_reviewer actor.role) ≡ true)
    × ((is_approved r.status || is_execution_failed r.status) ≡ true)
    × (r'.status ≡ (if success then executed else execution_failed))
    × (r'.execution_attempts ≡ incr r.execution_attempts)
    × Revised r r'

module _ {S : Type 0} (svc : Service S) (p : Protocol svc.store) where
  Keeps-execution_audited :
      (actor : Actor) (success : Bool) (message : String) (req : Request)
      → Keeps p (execution_audited svc actor success message req)
  unfolding execution_audited
  Keeps-execution_audited actor success message req =
      search (keeps_rules, Keeps-audit_for svc p, p.audit_waits) depth 10

  module _ (actor : Actor) (success : Bool) (message : String) where
    abbrev finished : Request → Time → Request
    finished req at =
        finish svc.execution_max_attempts svc.execution_retry_base at success message req

    finish-ExecutionChange :
        (at : Time) (req new : Request)
        → (is_admin actor.role || is_reviewer actor.role) ≡ true
        → (is_approved req.status || is_execution_failed req.status) ≡ true
        → Agrees new (finished req at)
        → ExecutionChange actor success req new
    unfolding finish
    finish-ExecutionChange at req new may ready agrees = (
      may,
      ready,
      ground (arith, agrees.status_kept),
      ground (arith, agrees.attempts_kept),
      record {
        same_type = ground (arith, agrees.type_kept);
        same_target = ground (arith, agrees.target_kept);
        same_justification = ground (arith, agrees.justification_kept);
        same_requester = ground (arith, agrees.requester_kept);
        bumped = ground (arith, agrees.version_kept);
      },
    )

    finish_id : (req : Request) (at : Time) → (finished req at).id ≡ req.id
    unfolding finish
    finish_id req at = ground arith

    pub Does-apply_execution_result :
        (Q : Request → Request → Type 0) (req : Request) (w : World S)
        → p.Knows req w.state
        → (is_admin actor.role || is_reviewer actor.role) ≡ true
        → ((new : Request) → ExecutionChange actor success req new → Q req new)
        → Does p Q (apply_execution_result svc req actor success message) w
    unfolding apply_execution_result
    Does-apply_execution_result Q req w known may q =
        Does->>= p _ _ _ w (Keeps-guard p _ _) (λ v u ready same.
          Does-revise p _ svc.runtime (finished req)
            (λ at. execution_audited svc actor success message (finished req at)) req _ known
            (λ at. finish_id req at)
            (λ at new agrees.
              q new
                (finish-ExecutionChange at req new may (guard-passed svc p _ _ w u ready) agrees))
            (λ at. Keeps-execution_audited actor success message (finished req at)))

    pub Does-record_execution_result :
        (id : String) (w : World S)
        → Does p
            (Named id (ExecutionChange actor success))
            (record_execution_result svc actor id success message)
            w
    unfolding record_execution_result
    Does-record_execution_result id w = Does->>= p _ _ _ w (Keeps-guard p _ _) (λ v u may same.
        Does->>= p _ _ _ _ (Keeps-get svc p id) (λ v' req found same'.
          let (known, is) = p.gets id _ req v' found in
          Does-apply_execution_result (Named id (ExecutionChange actor success)) req _ known
            (guard-passed svc p _ _ w u may) (λ new change. (is, change))))
