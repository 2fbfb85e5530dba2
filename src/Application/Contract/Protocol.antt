-- ===== src/Application/Contract/Protocol.antt =====
-- What the rules for the service's actions use of a store: what a client knows of a request that it
-- has read, while nothing but quiet calls of its own and the steps of others happen, and how an
-- update of such a request ends.
use review_workflow.Base.{◌≡◌, String, List, All}
use review_workflow.Base.Int.{ℤ}
use review_workflow.Domain.{
  Time, Request, AuditEntry, ReviewAction, JobRun, IdempotencyRecord, RequestFilter,
}
use review_workflow.Application.Errors.{ok}
use review_workflow.Application.Interfaces.{Op, Store}
use review_workflow.Application.Contract.{Agrees, IsPending, IsRunnable, IsDistinct}

-- A call after which nothing of the client's own has changed a request.
abbrev pub Waits : {T A : Type 0} → (T → Type 0) → (T → T → Type 0) → Op T A → Type 0
Waits {T} Good Between op = (s : T) → Good s → Between s (op s).1

-- A listing that succeeds makes its requests known, each once, and they are as `Due` says.
abbrev pub Listing :
    {T : Type 0}
    → (T → Type 0)
    → (Request → T → Type 0)
    → (Request → Type 0)
    → Op T (List Request)
    → Type 0
Listing {T} Good Knows Due op =
    (s : T) (rs : List Request)
    → Good s
    → (op s).0 ≡ ok rs
    → All (λ r. Knows r (op s).1) rs × IsDistinct rs × All Due rs

pub record Protocol {T : Type 0} (store : Store T) : Type 1 where
  pub Good : T → Type 0
  pub Between : T → T → Type 0
  pub Knows : Request → T → Type 0
  -- A run in which the client itself changes at most one request, as the relation says.
  pub Ends : (Request → Request → Type 0) → T → T → Type 0
  pub rest : (s : T) → Good s → Between s s
  pub trans : (s t u : T) → Between s t → Between t u → Between s u
  pub good : (s t : T) → Between s t → Good t
  pub later : (r : Request) (s t : T) → Between s t → Knows r s → Knows r t
  pub ends-none : (P : Request → Request → Type 0) (s t : T) → Between s t → Ends P s t
  pub ends-before :
      (P : Request → Request → Type 0) (s t u : T) → Between s t → Ends P t u → Ends P s u
  pub ends-after :
      (P : Request → Request → Type 0) (s t u : T) → Ends P s t → Between t u → Ends P s u
  pub ends-good : (P : Request → Request → Type 0) (s t : T) → Ends P s t → Good t
  pub gets :
      (id : String) (s : T) (r : Request)
      → Good s
      → (store.get_request id s).0 ≡ ok r
      → Knows r (store.get_request id s).1 × (r.id ≡ id)
  pub updates :
      (P : Request → Request → Type 0) (req old : Request) (s : T)
      → Good s
      → Knows old s
      → req.id ≡ old.id
      → ((new : Request) → Agrees new req → P old new)
      → Ends P s (store.update_request req old.version s).1
  pub get_waits : (id : String) → Waits Good Between (store.get_request id)
  pub audit_waits : (entry : AuditEntry) → Waits Good Between (store.append_audit entry)
  pub list_waits : (filter : RequestFilter) → Waits Good Between (store.list_requests filter)
  pub list_audit_waits : (id : String) → Waits Good Between (store.list_audit id)
  pub review_waits : (review : ReviewAction) → Waits Good Between (store.create_review review)
  pub key_read_waits : (scope key : String) → Waits Good Between (store.get_idempotency scope key)
  pub key_waits : (rec : IdempotencyRecord) → Waits Good Between (store.create_idempotency rec)
  pub run_waits : (run : JobRun) → Waits Good Between (store.append_job_run run)
  pub reminders_wait :
      (before : Time) (limit : ℤ)
      → Waits Good Between (store.list_requests_needing_reminder before limit)
  pub reminders_listed :
      (before : Time) (limit : ℤ)
      → Listing Good Knows IsPending (store.list_requests_needing_reminder before limit)
  pub executions_wait :
      (before : Time) (limit : ℤ)
      → Waits Good Between (store.list_requests_ready_for_execution before limit)
  pub executions_listed :
      (before : Time) (limit : ℤ)
      → Listing Good Knows IsRunnable (store.list_requests_ready_for_execution before limit)
