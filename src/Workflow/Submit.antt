-- ===== src/Workflow/Submit.antt =====
-- `SubmitRequest` on the memory store, as a step of the workflow.
use review_workflow.Base.{
  ◌≡◌, refl, ap, ◌∙◌, inl, inr, Option-cases, String, lookup, some, none, arith, ◌==◌, ◌||◌, true,
  ◌⊎◌, insert, suc, ◌∷◌, [],
}
use review_workflow.Base.Int.{eq_ℤ_iff}
use review_workflow.Domain.{Actor, Request, draft, is_admin}
use review_workflow.Domain.Id.{new_id}
use review_workflow.Repository.Memory.{Memory}
use review_workflow.Repository.Memory
use review_workflow.Application.Helpers.{audit_entry, system_actor}
use review_workflow.Application.Monad.{Service, World}
use review_workflow.Application.Requests
use review_workflow.Application.Requests.{submit_request}
use review_workflow.Workflow.{
  EffectOf, unchanged, quiet, move, submit, IsKeyed, append_all, on_memory,
}

module _ (svc : Service Memory) (actor : Actor) (id key : String) (w : World Memory) where
  -- The submitted form of a request that is stored.
  abbrev submitted : Request → Request
  submitted = Requests.submit svc.default_reviewer_id (svc.runtime.clock (suc w.ticks))

  submit_request-missing :
      lookup id w.state.requests ≡ none
      → (submit_request (on_memory svc) actor id key w).1.state ≡ w.state
  unfolding submit_request Memory.get_request
  submit_request-missing e = ground arith

  submit_request-stored :
      (r : Request)
      → lookup id w.state.requests ≡ some r
      → r.id ≡ id
      → let s' = (submit_request (on_memory svc) actor id key w).1.state in
        ((s'.requests ≡ w.state.requests) × (s'.audit ≡ w.state.audit))
        ⊎ ((r.status ≡ draft)
            × ((is_admin actor.role || r.requester_id == actor.id) ≡ true)
            × (s'.requests ≡ insert r.id (submitted r) w.state.requests)
            × (s'.audit
                ≡ append_all r.id
                    (audit_entry
                        (new_id "audit" (svc.runtime.random w.draws))
                        (svc.runtime.clock (suc (suc w.ticks)))
                        (submitted r)
                        actor
                        "submitted"
                        "request submitted for review"
                      ∷ audit_entry
                          (new_id "audit" (svc.runtime.random (suc w.draws)))
                          (svc.runtime.clock (suc (suc (suc w.ticks))))
                          (submitted r)
                          system_actor
                          "review_assigned"
                          "request assigned to reviewer"
                      ∷ [])
                    w.state.audit))
  unfolding submit_request Memory.get_request Memory.get_idempotency Memory.create_idempotency
      Memory.update_request Memory.append_audit
  submit_request-stored r e f = ground (arith, eq_ℤ_iff r.version r.version)

  pub submit_request-Effect :
      IsKeyed w.state → EffectOf svc w.state (submit_request (on_memory svc) actor id key w).1.state
  unfolding Requests.submit
  submit_request-Effect keyed = elim (Option-cases (lookup id w.state.requests)) [
    | inl e ↦ unchanged svc (submit_request-missing e)
    | inr (r, e) ↦ elim (submit_request-stored r e (keyed id r e)) [
      | inl (same, trail) ↦ quiet same trail
      | inr (d, _, changed, trail) ↦
          move r (submitted r) _
            (submit _ _ (ground arith) d refl refl (λ h. cc) refl refl refl refl)
            (ap (λ k. lookup k w.state.requests) (keyed id r e) ∙ e) changed trail
    ]
  ]
