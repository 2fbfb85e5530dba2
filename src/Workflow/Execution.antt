-- ===== src/Workflow/Execution.antt =====
-- Execution results and the worker's passes on the memory store.
use review_workflow.Base.{
  ◌≡◌, refl, ap, ◌∙◌, inl, inr, Option-cases, Bool-cases, Bool, String, lookup, some, none, arith,
  true, false, ◌⊎◌, insert, suc, ◌∷◌, [], trim_space, ◌||◌, ◌<>◌, if◌then◌else◌,
}
use review_workflow.Base.Int.{ℤ, eq_ℤ_iff}
use review_workflow.Domain.{
  Actor, AuditEntry, Duration, Request, Time, is_approved, is_execution_failed, is_admin,
  is_reviewer,
}
use review_workflow.Domain.Id.{new_id}
use review_workflow.Repository.Memory.{Memory, append_at}
use review_workflow.Repository.Memory
use review_workflow.Application.Helpers.{audit_entry}
use review_workflow.Application.Monad.{Service, World}
use review_workflow.Application.Execution.{finish, apply_execution_result, record_execution_result}
use review_workflow.Workflow.{
  EffectOf, unchanged, Move, quiet, move, succeed, fail, IsKeyed, append_all, on_memory,
}

abbrev pub finish_action : Bool → String
finish_action success = if success then "execution_succeeded" else "execution_failed"

-- The transition of an execution's end: a failure is scheduled again only below the bound.
finish-Move :
    (reviewer : String) (max : ℤ) (base : Duration) (at : Time) (message : String) (r : Request)
    (e : AuditEntry) (success : Bool)
    → (is_approved r.status || is_execution_failed r.status) ≡ true
    → e.action ≡ finish_action success
    → Move reviewer max r (finish max base at success message r) (e ∷ [])
unfolding finish
finish-Move rev max base at message r e true ready named =
    succeed e (ground arith) (ground arith) refl named refl refl
finish-Move rev max base at message r e false ready named =
    fail e (ground arith) (ground arith) refl named refl (ground arith)

module _ (svc : Service Memory) (req : Request) (actor : Actor) (success : Bool) (message : String)
    (w : World Memory) where
  abbrev pub finished : Request
  finished =
      finish svc.execution_max_attempts svc.execution_retry_base (svc.runtime.clock w.ticks) success
        message req

  abbrev pub finish_entry : AuditEntry
  finish_entry =
      audit_entry (new_id "audit" (svc.runtime.random w.draws)) (svc.runtime.clock (suc w.ticks))
        finished actor (finish_action success)
        (if success
          then "request executed successfully"
          else "execution failed: " <> trim_space message)

  pub apply_execution_result-stored :
      lookup req.id w.state.requests ≡ some req
      → let s' = (apply_execution_result (on_memory svc) req actor success message w).1.state in
        ((s'.requests ≡ w.state.requests) × (s'.audit ≡ w.state.audit))
        ⊎ (((is_approved req.status || is_execution_failed req.status) ≡ true)
            × (s'.requests ≡ insert req.id finished w.state.requests)
            × (s'.audit ≡ append_all req.id (finish_entry ∷ []) w.state.audit))
  unfolding apply_execution_result Memory.update_request Memory.append_audit
  apply_execution_result-stored e = ground (arith, eq_ℤ_iff req.version req.version)

  pub apply_execution_result-ready :
      lookup req.id w.state.requests ≡ some req
      → (is_approved req.status || is_execution_failed req.status) ≡ true
      → (apply_execution_result (on_memory svc) req actor success message w).1.state.requests
        ≡ insert req.id finished w.state.requests
  unfolding apply_execution_result Memory.update_request Memory.append_audit
  apply_execution_result-ready e ready = ground (arith, eq_ℤ_iff req.version req.version)

  pub apply_execution_result-Effect :
      lookup req.id w.state.requests ≡ some req
      → EffectOf svc w.state
          (apply_execution_result (on_memory svc) req actor success message w).1.state
  apply_execution_result-Effect e = elim (apply_execution_result-stored e) [
    | inl (same, trail) ↦ quiet same trail
    | inr (ready, changed, trail) ↦
        move req finished (finish_entry ∷ [])
          (finish-Move _ _ _ _ _ _ finish_entry success ready refl) e changed trail
  ]

module _ (svc : Service Memory) (actor : Actor) (id : String) (success : Bool) (message : String)
    (w : World Memory) where
  record_execution_result-refused :
      (is_admin actor.role || is_reviewer actor.role) ≡ false
      → (record_execution_result (on_memory svc) actor id success message w).1.state ≡ w.state
  unfolding record_execution_result
  record_execution_result-refused h = ground arith

  record_execution_result-missing :
      lookup id w.state.requests ≡ none
      → (record_execution_result (on_memory svc) actor id success message w).1.state ≡ w.state
  unfolding record_execution_result Memory.get_request
  record_execution_result-missing h = ground arith

  record_execution_result-stored :
      (r : Request)
      → (is_admin actor.role || is_reviewer actor.role) ≡ true
      → lookup id w.state.requests ≡ some r
      → record_execution_result (on_memory svc) actor id success message w
        ≡ apply_execution_result (on_memory svc) r actor success message w
  unfolding record_execution_result Memory.get_request
  record_execution_result-stored r may e = ground arith

  pub record_execution_result-Effect :
      IsKeyed w.state
      → EffectOf svc w.state
          (record_execution_result (on_memory svc) actor id success message w).1.state
  record_execution_result-Effect keyed =
      elim (Bool-cases (is_admin actor.role || is_reviewer actor.role)) [
        | inr refused ↦ unchanged svc (record_execution_result-refused refused)
        | inl may ↦ elim (Option-cases (lookup id w.state.requests)) [
          | inl e ↦ unchanged svc (record_execution_result-missing e)
          | inr (r, e) ↦ rw (record_execution_result-stored r may e) (
              apply_execution_result-Effect svc r actor success message w
                (ap (λ k. lookup k w.state.requests) (keyed id r e) ∙ e))
        ]
      ]
