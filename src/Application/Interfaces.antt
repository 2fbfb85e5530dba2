-- ===== src/Application/Interfaces.antt =====
-- internal/application/interfaces.go. A method of a store takes the store's state `S` and returns
-- the state after it with a value or an error; every method may change the state and may fail.
use review_workflow.Base.{String, Option, List}
use review_workflow.Base.Int.{ℤ}
use review_workflow.Domain.{
  Time, Request, AuditEntry, ReviewAction, JobRun, IdempotencyRecord, RequestFilter,
}
use review_workflow.Application.Errors.{Result}

abbrev pub Op : Type 0 → Type 0 → Type 0
Op S A = S → Result A × S

pub record Store (S : Type 0) : Type 0 where
  pub create_request : Request → Op S (Unit {0})
  pub get_request : String → Op S Request
  pub list_requests : RequestFilter → Op S (List Request)
  pub update_request : Request → ℤ → Op S (Unit {0})
  pub append_audit : AuditEntry → Op S (Unit {0})
  pub list_audit : String → Op S (List AuditEntry)
  pub create_review : ReviewAction → Op S (Unit {0})
  pub get_idempotency : String → String → Op S IdempotencyRecord
  pub create_idempotency : IdempotencyRecord → Op S (Unit {0})
  pub list_requests_needing_reminder : Time → ℤ → Op S (List Request)
  pub list_requests_ready_for_execution : Time → ℤ → Op S (List Request)
  pub append_job_run : JobRun → Op S (Unit {0})

-- `Execute` gives the message of its error, if it fails.
pub record Executor : Type 0 where
  pub execute : Request → Option String
