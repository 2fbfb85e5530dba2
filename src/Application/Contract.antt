-- ===== src/Application/Contract.antt =====
-- What the service may expect of a store of internal/application/interfaces.go, whatever keeps the
-- data: which request a state holds under an identifier, and what each method makes of that.
pub mod Protocol
pub mod Moved
pub mod Alone
pub mod Later
pub mod Among
pub mod Keeps
pub mod Race
pub mod Helpers
pub mod Submit
pub mod Review
pub mod Execution
pub mod Chains
pub mod Worker
pub mod Passes
pub mod Calls
use review_workflow.Base.{
  List, [], ◌∷◌, All, ◌≡◌, ◌⊎◌, ◌≢◌, String, ◌==◌, Option, none, some, if◌then◌else◌,
}
use review_workflow.Base.Int.{ℤ}
use review_workflow.Domain.{
  pending_review, approved, execution_failed, Time, Request, AuditEntry, ReviewAction, JobRun,
  IdempotencyRecord, RequestFilter,
}
use review_workflow.Application.Errors.{Kind, not_found, Result, ok, err}
use review_workflow.Application.Interfaces.{Op, Store}

-- What an update keeps of the request that it is given. The texts that a store may trim, the times
-- that it may round and the time of creation are left open.
pub record Agrees (r' r : Request) : Type 0 where
  pub type_kept : r'.type ≡ r.type
  pub target_kept : r'.target_resource ≡ r.target_resource
  pub justification_kept : r'.justification ≡ r.justification
  pub requester_kept : r'.requester_id ≡ r.requester_id
  pub status_kept : r'.status ≡ r.status
  pub version_kept : r'.version ≡ r.version
  pub attempts_kept : r'.execution_attempts ≡ r.execution_attempts
  pub reminders_kept : r'.reminder_count ≡ r.reminder_count

-- The requests of `s'` and of `s`, by identifier.
abbrev pub SameRequests : {S : Type 0} → (S → String → Option Request) → S → S → Type 0
SameRequests request s s' = (k : String) → request s' k ≡ request s k

-- A method that changes no request.
abbrev pub Quiet : {S A : Type 0} → (S → Type 0) → (S → String → Option Request) → Op S A → Type 0
Quiet {S} Valid request op = (s : S) → Valid s → Valid (op s).1 × SameRequests request s (op s).1

-- An update that is accepted has met the expected version, and changes that request alone; one
-- that fails changes none.
abbrev pub UpdateLaw :
    {S : Type 0} → (S → String → Option Request) → Request → ℤ → S → Result (Unit {0}) × S → Type 0
UpdateLaw request req expected s (ok _, s') =
    (old new : Request) × (request s req.id ≡ some old)
    × (old.version ≡ expected)
    × Agrees new req
    × ((k : String) → request s' k ≡ (if req.id == k then some new else request s k))
UpdateLaw request req expected s (err e, s') = SameRequests request s s'

abbrev pub CreateLaw :
    {S : Type 0} → (S → String → Option Request) → Request → S → Result (Unit {0}) × S → Type 0
CreateLaw request req s (ok _, s') =
    (new : Request) × Agrees new req
    × ((k : String) → request s' k ≡ (if req.id == k then some new else request s k))
CreateLaw request req s (err e, s') = SameRequests request s s'

-- A read that succeeds gives the request that is held.
abbrev pub GetLaw :
    {S : Type 0} → (S → String → Option Request) → String → S → Result Request → Type 0
GetLaw request id s (ok r) = request s id ≡ some r
GetLaw request id s (err e) = e.kind ≡ not_found → request s id ≡ none

-- No identifier twice.
abbrev pub IsDistinct : List Request → Type 0
IsDistinct [] = Unit
IsDistinct (r ∷ rs) = All (λ q. r.id ≢ q.id) rs × IsDistinct rs

-- A listing that succeeds gives requests that are held, each once, and as `Due` says.
abbrev pub ListLaw :
    {S : Type 0}
    → (S → String → Option Request)
    → (Request → Type 0)
    → S
    → Result (List Request)
    → Type 0
ListLaw request Due s (ok rs) = All (λ r. request s r.id ≡ some r) rs × IsDistinct rs × All Due rs
ListLaw request Due s (err e) = Unit

-- What the two passes may ask for.
abbrev pub IsPending : Request → Type 0
IsPending r = r.status ≡ pending_review

abbrev pub IsRunnable : Request → Type 0
IsRunnable r = (r.status ≡ approved) ⊎ (r.status ≡ execution_failed)

abbrev pub Lists :
    {S : Type 0}
    → (S → Type 0)
    → (S → String → Option Request)
    → (Request → Type 0)
    → Op S (List Request)
    → Type 0
Lists {S} Valid request Due op =
    (s : S)
    → Valid s
    → Valid (op s).1 × SameRequests request s (op s).1 × ListLaw request Due s (op s).0

-- The contract of a store on its valid states, with the request that a state holds under an
-- identifier.
pub record Contract {S : Type 0} (store : Store S) (Valid : S → Type 0)
    (request : S → String → Option Request) : Type 0 where
  pub keyed : (s : S) → Valid s → (k : String) (r : Request) → request s k ≡ some r → r.id ≡ k
  pub gets : (id : String) (s : S) → Valid s → GetLaw request id s (store.get_request id s).0
  pub get_quiet : (id : String) → Quiet Valid request (store.get_request id)
  pub updates :
      (req : Request) (expected : ℤ) (s : S)
      → Valid s
      → Valid (store.update_request req expected s).1
        × UpdateLaw request req expected s (store.update_request req expected s)
  pub creates :
      (req : Request) (s : S)
      → Valid s
      → Valid (store.create_request req s).1 × CreateLaw request req s (store.create_request req s)
  pub list_quiet : (filter : RequestFilter) → Quiet Valid request (store.list_requests filter)
  pub audit_quiet : (entry : AuditEntry) → Quiet Valid request (store.append_audit entry)
  pub list_audit_quiet : (id : String) → Quiet Valid request (store.list_audit id)
  pub review_quiet : (review : ReviewAction) → Quiet Valid request (store.create_review review)
  pub key_read_quiet : (scope key : String) → Quiet Valid request (store.get_idempotency scope key)
  pub key_quiet : (rec : IdempotencyRecord) → Quiet Valid request (store.create_idempotency rec)
  pub run_quiet : (run : JobRun) → Quiet Valid request (store.append_job_run run)
  pub reminders_listed :
      (before : Time) (limit : ℤ)
      → Lists Valid request IsPending (store.list_requests_needing_reminder before limit)
  pub executions_listed :
      (before : Time) (limit : ℤ)
      → Lists Valid request IsRunnable (store.list_requests_ready_for_execution before limit)
