-- ===== src/Workflow/Drafts.antt =====
-- `CreateDraft` on the memory store, as a step of the workflow.
use review_workflow.Base.{
  ◌≡◌, inl, inr, String, lookup, none, arith, ◌⊎◌, insert, suc, ◌∷◌, [], trim_space,
}
use review_workflow.Base.Int.{pos}
use review_workflow.Domain.{Actor, AuditEntry, Request, draft}
use review_workflow.Domain.Id.{new_id}
use review_workflow.Repository.Memory.{Memory}
use review_workflow.Repository.Memory
use review_workflow.Application.Helpers.{audit_entry}
use review_workflow.Application.Monad.{Service, World}
use review_workflow.Application.Requests.{CreateDraftInput, create_draft}
use review_workflow.Workflow.{EffectOf, create, quiet, IsNewDraft, append_all, on_memory}

module _ (svc : Service Memory) (actor : Actor) (input : CreateDraftInput) (w : World Memory) where
  abbrev pub drafted_id : String
  drafted_id = new_id "req" (svc.runtime.random w.draws)

  abbrev pub drafted : Request
  drafted = record {
    id = drafted_id;
    type = trim_space input.type;
    target_resource = trim_space input.target_resource;
    justification = trim_space input.justification;
    requester_id = actor.id;
    assigned_reviewer_id = "";
    status = draft;
    version = pos 1;
    reminder_count = pos 0;
    execution_attempts = pos 0;
    last_execution_error = "";
    created_at = svc.runtime.clock w.ticks;
    updated_at = svc.runtime.clock w.ticks;
    submitted_at = none;
    approved_at = none;
    reviewed_at = none;
    executed_at = none;
    last_reminded_at = none;
    next_execution_at = none;
  }

  abbrev draft_entry : AuditEntry
  draft_entry =
      audit_entry (new_id "audit" (svc.runtime.random (suc w.draws)))
        (svc.runtime.clock (suc w.ticks)) drafted actor "draft_created" "draft request created"

  create_draft-cases :
      let s' = (create_draft (on_memory svc) actor input w).1.state in
      ((s'.requests ≡ w.state.requests) × (s'.audit ≡ w.state.audit))
      ⊎ ((s'.requests ≡ insert drafted_id drafted w.state.requests)
          × (s'.audit ≡ append_all drafted_id (draft_entry ∷ []) w.state.audit))
  unfolding create_draft Memory.create_request Memory.append_audit
  create_draft-cases = ground arith

  drafted-IsNewDraft : IsNewDraft drafted
  drafted-IsNewDraft = ground arith

  -- With an identifier that is not in use.
  pub create_draft-Effect :
      lookup drafted_id w.state.requests ≡ none
      → EffectOf svc w.state (create_draft (on_memory svc) actor input w).1.state
  create_draft-Effect fresh = elim create_draft-cases [
    | inl (same, trail) ↦ quiet same trail
    | inr (changed, trail) ↦ create drafted draft_entry drafted-IsNewDraft fresh changed trail
  ]
