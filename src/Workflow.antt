-- ===== src/Workflow.antt =====
-- The workflow of README.md and docs/architecture.md as an abstract transition system: what each
-- transition of a request may change, and what one call may do to the stored data.
pub mod Submit
pub mod Review
pub mod Execution
pub mod Passes
pub mod Drafts
pub mod Sound
pub mod Consistent
pub mod Runs
pub mod Locking
use review_workflow.Base.{
  ◌≡◌, ap, ◌∙◌, ◌≢◌, ◌⊎◌, true, String, Option, none, some, List, [], ◌∷◌, Dict, lookup, insert,
  All,
}
use review_workflow.Base.Int.{ℤ, pos, incr, ◌<ℤ◌}
use review_workflow.Domain.{
  Role, admin, reviewer, draft, pending_review, approved, rejected, executed, execution_failed,
  Time, Request, AuditEntry,
}
use review_workflow.Repository.Memory.{Memory, memory_store, append_at}
use review_workflow.Application.Monad.{Service}

-- A service over the memory store, with any other settings.
abbrev pub on_memory : Service Memory → Service Memory
on_memory svc = record svc { store = memory_store }

-- What every transition keeps, and the version that it moves on by one.
pub record SameIdentity (r r' : Request) : Type 0 where
  pub id_same : r'.id ≡ r.id
  pub type_same : r'.type ≡ r.type
  pub target_same : r'.target_resource ≡ r.target_resource
  pub justification_same : r'.justification ≡ r.justification
  pub requester_same : r'.requester_id ≡ r.requester_id
  pub created_same : r'.created_at ≡ r.created_at
  pub version_bumped : r'.version ≡ incr r.version

-- What every transition but the submission keeps too.
pub record SameReviewer (r r' : Request) : Type 0 where
  pub identity : SameIdentity r r'
  pub reviewer_same : r'.assigned_reviewer_id ≡ r.assigned_reviewer_id
  pub submitted_same : r'.submitted_at ≡ r.submitted_at

-- An entry by somebody who may decide on a request: an admin or the assigned reviewer, and in no
-- case the requester.
abbrev pub Decides : String → String → String → AuditEntry → Type 0
Decides action requester assigned e =
    (e.action ≡ action)
    × (e.actor_id ≢ requester)
    × ((e.actor_role ≡ admin) ⊎ ((e.actor_role ≡ reviewer) × (assigned ≡ e.actor_id)))

-- The transitions of a request, with the audit entries that each writes. `default_reviewer` and
-- `max_attempts` are the service's settings.
module _ (default_reviewer : String) (max_attempts : ℤ) where
  pub data Move (r r' : Request) : List AuditEntry → Type 0 where
    submit :
        (e e' : AuditEntry)
        → SameIdentity r r'
        → r.status ≡ draft
        → r'.status ≡ pending_review
        → r'.assigned_reviewer_id ≡ default_reviewer
        → r'.submitted_at ≢ none
        → r'.execution_attempts ≡ r.execution_attempts
        → r'.next_execution_at ≡ r.next_execution_at
        → e.action ≡ "submitted"
        → e'.action ≡ "review_assigned"
        → Move r r' (e ∷ e' ∷ [])
    approve :
        (e : AuditEntry)
        → SameReviewer r r'
        → r.status ≡ pending_review
        → r'.status ≡ approved
        → Decides "approved" r.requester_id r.assigned_reviewer_id e
        → r'.execution_attempts ≡ r.execution_attempts
        → r'.next_execution_at ≢ none
        → Move r r' (e ∷ [])
    reject :
        (e : AuditEntry)
        → SameReviewer r r'
        → r.status ≡ pending_review
        → r'.status ≡ rejected
        → Decides "rejected" r.requester_id r.assigned_reviewer_id e
        → r'.execution_attempts ≡ r.execution_attempts
        → r'.next_execution_at ≡ none
        → Move r r' (e ∷ [])
    succeed :
        (e : AuditEntry)
        → SameReviewer r r'
        → (r.status ≡ approved) ⊎ (r.status ≡ execution_failed)
        → r'.status ≡ executed
        → e.action ≡ "execution_succeeded"
        → r'.execution_attempts ≡ incr r.execution_attempts
        → r'.next_execution_at ≡ none
        → Move r r' (e ∷ [])
    fail :
        (e : AuditEntry)
        → SameReviewer r r'
        → (r.status ≡ approved) ⊎ (r.status ≡ execution_failed)
        → r'.status ≡ execution_failed
        → e.action ≡ "execution_failed"
        → r'.execution_attempts ≡ incr r.execution_attempts
        → (r'.next_execution_at ≡ none) ⊎ (r'.execution_attempts <ℤ max_attempts)
        → Move r r' (e ∷ [])
    remind :
        (e : AuditEntry)
        → SameReviewer r r'
        → r.status ≡ pending_review
        → r'.status ≡ pending_review
        → e.action ≡ "reminder_sent"
        → r'.execution_attempts ≡ r.execution_attempts
        → r'.next_execution_at ≡ r.next_execution_at
        → Move r r' (e ∷ [])

pub record IsNewDraft (r : Request) : Type 0 where
  pub is_draft : r.status ≡ draft
  pub first_version : r.version ≡ pos 1
  pub no_attempts : r.execution_attempts ≡ pos 0
  pub not_scheduled : r.next_execution_at ≡ none

-- Entries appended to the slice of one key, in order.
abbrev pub append_all : String → List AuditEntry → Dict (List AuditEntry) → Dict (List AuditEntry)
append_all k [] m = m
append_all k (e ∷ es) m = append_all k es (append_at k e m)

-- What a call may do to the requests and the audit trail: nothing, a new draft, or one transition
-- of one stored request together with its entries.
module _ (default_reviewer : String) (max_attempts : ℤ) where
  pub data Effect (s s' : Memory) : Type 0 where
    quiet : s'.requests ≡ s.requests → s'.audit ≡ s.audit → Effect s s'
    create :
        (r : Request) (e : AuditEntry)
        → IsNewDraft r
        → lookup r.id s.requests ≡ none
        → s'.requests ≡ insert r.id r s.requests
        → s'.audit ≡ append_all r.id (e ∷ []) s.audit
        → Effect s s'
    move :
        (r r' : Request) (es : List AuditEntry)
        → Move default_reviewer max_attempts r r' es
        → lookup r.id s.requests ≡ some r
        → s'.requests ≡ insert r.id r' s.requests
        → s'.audit ≡ append_all r.id es s.audit
        → Effect s s'

  pub data Effects (s : Memory) : Memory → Type 0 where
    done : Effects s s
    next : {t u : Memory} → Effects s t → Effect t u → Effects s u

-- An effect, under the settings of a service.
abbrev pub EffectOf : Service Memory → Memory → Memory → Type 0
EffectOf svc = Effect svc.default_reviewer_id svc.execution_max_attempts

abbrev pub EffectsOf : Service Memory → Memory → Memory → Type 0
EffectsOf svc = Effects svc.default_reviewer_id svc.execution_max_attempts

-- A call that leaves the whole state as it was.
pub unchanged : (svc : Service Memory) {s s' : Memory} → s' ≡ s → EffectOf svc s s'
unchanged svc e = quiet (ap (λ m. m.requests) e) (ap (λ m. m.audit) e)

-- An effect speaks of the requests and the trail alone.
pub Effect-congr :
    (svc : Service Memory) {s t u : Memory}
    → u.requests ≡ t.requests
    → u.audit ≡ t.audit
    → EffectOf svc s t
    → EffectOf svc s u
Effect-congr svc er ea (quiet sr sa) = quiet (er ∙ sr) (ea ∙ sa)
Effect-congr svc er ea (create r e new absent sr sa) = create r e new absent (er ∙ sr) (ea ∙ sa)
Effect-congr svc er ea (move r r' es m stored sr sa) = move r r' es m stored (er ∙ sr) (ea ∙ sa)

pub Effects-trans :
    (svc : Service Memory) {s t u : Memory}
    → EffectsOf svc s t
    → EffectsOf svc t u
    → EffectsOf svc s u
Effects-trans svc es done = es
Effects-trans svc es (next fs f) = next (Effects-trans svc es fs) f

-- Every request is stored under its own identifier.
abbrev pub IsKeyed : Memory → Type 0
IsKeyed s = (k : String) (r : Request) → lookup k s.requests ≡ some r → r.id ≡ k
