-- ===== src/Workflow/Passes.antt =====
-- The worker's passes of internal/application/service.go on the memory store, as chains of the
-- workflow's transitions.
pub mod Outcome
pub mod Taken
pub mod Settling
use review_workflow.Base.{
  ◌≡◌, refl, sym, ap, ◌∙◌, inl, inr, Option-cases, Bool-cases, Bool, String, lookup, some, none,
  arith, ◌==◌, true, false, ◌⊎◌, ◌≢◌, insert, suc, List, ◌∷◌, [], eq_iff, eq_refl, trim_space, ◌||◌,
  ◌&&◌, ◌<>◌, if◌then◌else◌, All, Dict, values, lookup-insert_ne,
}
use review_workflow.Base.Int.{ℤ, eq_ℤ_iff}
use review_workflow.Domain.{Actor, AuditEntry, Request, Time, pending_review, is_pending_review}
use review_workflow.Domain.Id.{new_id}
use review_workflow.Repository.Memory.{Memory}
use review_workflow.Repository.Memory
use review_workflow.Application.Helpers.{audit_entry, system_actor}
use review_workflow.Application.Monad.{>>-ok, Service, World}
use review_workflow.Application.Execution
use review_workflow.Application.Errors.{ok}
use review_workflow.Application.Execution.{
  remind_one, execute_one, apply_execution_result, remind_all, execute_all, process_due_reminders,
  process_due_executions, succeeded, failure,
}
use review_workflow.Workflow.Execution.{
  apply_execution_result-stored, apply_execution_result-Effect,
}
use review_workflow.Repository.Memory.Listing.{IsMap, Listed, Listed-elsewhere, Listed-collect}
use review_workflow.Workflow.{
  EffectOf, EffectsOf, Effect-congr, Effects-trans, done, next, unchanged, quiet, move, remind,
  Effect, Move, IsKeyed, append_all, on_memory, SameReviewer,
}

module _ (svc : Service Memory) (at : Time) (req : Request) (w : World Memory) where
  abbrev reminded : Request
  reminded = Execution.remind at req

  abbrev remind_entry : AuditEntry
  remind_entry =
      audit_entry (new_id "audit" (svc.runtime.random w.draws)) (svc.runtime.clock w.ticks) reminded
        system_actor "reminder_sent" "review reminder generated"

  remind_one-stored :
      lookup req.id w.state.requests ≡ some req
      → let s' = (remind_one (on_memory svc) at req w).1.state in
        (s'.requests ≡ insert req.id reminded w.state.requests)
        × (s'.audit ≡ append_all req.id (remind_entry ∷ []) w.state.audit)
  unfolding remind_one Memory.update_request Memory.append_audit Memory.append_job_run
  remind_one-stored e = ground (arith, eq_ℤ_iff req.version req.version)

  remind_one-Effect :
      lookup req.id w.state.requests ≡ some req
      → is_pending_review req.status ≡ true
      → EffectOf svc w.state (remind_one (on_memory svc) at req w).1.state
  unfolding Execution.remind
  remind_one-Effect e p =
      let (changed, trail) = remind_one-stored e in
      move req reminded (remind_entry ∷ [])
        (remind _ (ground arith) (ground arith) (ground arith) refl refl refl) e changed trail

  -- An execution does what its result does to the requests and the trail.
  execute_one-state :
      let w' : World Memory = record w { draws = suc w.draws } in
      let outcome = svc.executor.execute req in
      let t =
        (apply_execution_result
          (on_memory svc)
          req
          system_actor
          (succeeded outcome)
          (failure outcome)
          w').1.state in
      let s' = (execute_one (on_memory svc) at req w).1.state in
      (s'.requests ≡ t.requests) × (s'.audit ≡ t.audit)
  unfolding execute_one Memory.append_job_run
  execute_one-state = ground arith

  execute_one-Effect :
      lookup req.id w.state.requests ≡ some req
      → EffectOf svc w.state (execute_one (on_memory svc) at req w).1.state
  execute_one-Effect e =
      let outcome = svc.executor.execute req in
      Effect-congr svc execute_one-state.0 execute_one-state.1 (
        apply_execution_result-Effect svc req system_actor (succeeded outcome) (failure outcome)
          (record w { draws = suc w.draws }) e)

  execute_one-elsewhere :
      lookup req.id w.state.requests ≡ some req
      → (j : String) → req.id ≢ j
      → lookup j (execute_one (on_memory svc) at req w).1.state.requests ≡ lookup j w.state.requests
  execute_one-elsewhere e j apart =
      let outcome = svc.executor.execute req in
      ap (lookup j) execute_one-state.0
      ∙ elim (apply_execution_result-stored svc req system_actor (succeeded outcome)
          (failure outcome) (record w { draws = suc w.draws }) e) [
            | inl (same, _) ↦ ap (lookup j) same
            | inr (_, changed, _) ↦ ap (lookup j) changed ∙ lookup-insert_ne req.id j _ _ apart
          ]

-- The bodies of the loops never return an error, so the loops go on to their ends.
module _ (svc : Service Memory) (at : Time) where
  remind_one-total :
      (req : Request) (w : World Memory) → (remind_one (on_memory svc) at req w).0 ≡ ok tt
  unfolding remind_one Memory.update_request Memory.append_audit Memory.append_job_run
  remind_one-total req w = ground arith

  remind_one-elsewhere :
      (req : Request) (w : World Memory)
      → lookup req.id w.state.requests ≡ some req
      → (j : String) → req.id ≢ j
      → lookup j (remind_one (on_memory svc) at req w).1.state.requests ≡ lookup j w.state.requests
  remind_one-elsewhere req w e j apart =
      ap (lookup j) (remind_one-stored svc at req w e).0 ∙ lookup-insert_ne req.id j _ _ apart

  needs_reminder-pending :
      (before : Time) (req : Request)
      → Memory.needs_reminder before req ≡ true
      → is_pending_review req.status ≡ true
  unfolding Memory.needs_reminder
  needs_reminder-pending before req h = ground arith

  remind_all-Effects :
      (before : Time) (rs : List Request) (w : World Memory)
      → Listed (Memory.needs_reminder before) w.state.requests rs
      → EffectsOf svc w.state (remind_all (on_memory svc) at rs w).1.state
  unfolding remind_all
  remind_all-Effects before [] w h = done
  remind_all-Effects before (r ∷ rs) w (stored, due, apart, others) =
      let w' = (remind_one (on_memory svc) at r w).1 in
      let first = remind_one-Effect svc at r w stored (needs_reminder-pending before r due) in
      let later =
        Listed-elsewhere (Memory.needs_reminder before) r.id w.state.requests w'.state.requests rs
          apart (remind_one-elsewhere r w stored) others in
      rw
        (>>-ok (remind_one (on_memory svc) at r) (remind_all (on_memory svc) at rs) w
          (remind_one-total r w))
        (Effects-trans svc (next done first) (remind_all-Effects before rs w' later))

  execute_one-total :
      (req : Request) (w : World Memory) → (execute_one (on_memory svc) at req w).0 ≡ ok tt
  unfolding execute_one Memory.append_job_run
  execute_one-total req w = ground arith

  execute_all-Effects :
      (p : Request → Bool) (rs : List Request) (w : World Memory)
      → Listed p w.state.requests rs
      → EffectsOf svc w.state (execute_all (on_memory svc) at rs w).1.state
  unfolding execute_all
  execute_all-Effects p [] w h = done
  execute_all-Effects p (r ∷ rs) w (stored, due, apart, others) =
      let w' = (execute_one (on_memory svc) at r w).1 in
      let later =
        Listed-elsewhere p r.id w.state.requests w'.state.requests rs apart
          (execute_one-elsewhere svc at r w stored) others in
      rw
        (>>-ok (execute_one (on_memory svc) at r) (execute_all (on_memory svc) at rs) w
          (execute_one-total r w))
        (Effects-trans svc (next done (execute_one-Effect svc at r w stored))
          (execute_all-Effects p rs w' later))

module _ (svc : Service Memory) (limit : ℤ) (w : World Memory) (map : IsMap w.state.requests) where
  pub process_due_reminders-Effects :
      EffectsOf svc w.state (process_due_reminders (on_memory svc) limit w).1.state
  unfolding process_due_reminders Memory.list_requests_needing_reminder
  process_due_reminders-Effects =
      remind_all-Effects svc _ _ _ _ (Listed-collect (Memory.needs_reminder _) limit _ map)

  pub process_due_executions-Effects :
      EffectsOf svc w.state (process_due_executions (on_memory svc) limit w).1.state
  unfolding process_due_executions Memory.list_requests_ready_for_execution
  process_due_executions-Effects =
      execute_all-Effects svc _ _ _ _ (Listed-collect (Memory.ready_for_execution _) limit _ map)
