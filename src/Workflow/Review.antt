-- ===== src/Workflow/Review.antt =====
-- `ApproveRequest` and `RejectRequest` on the memory store, as steps of the workflow.
use review_workflow.Base.{
  ◌≡◌, refl, ap, ◌∙◌, inl, inr, Option-cases, String, lookup, some, none, arith, true, ◌⊎◌, ◌≢◌,
  insert, suc, ◌∷◌, [], eq_iff,
}
use review_workflow.Base.Int.{eq_ℤ_iff}
use review_workflow.Domain.{Actor, AuditEntry, Request, Time, pending_review}
use review_workflow.Domain.Id.{new_id}
use review_workflow.Repository.Memory.{Memory, append_at}
use review_workflow.Repository.Memory
use review_workflow.Application.Helpers.{audit_entry, can_review, decision_description}
use review_workflow.Application.Monad.{Service, World}
use review_workflow.Application.Review.{decide, review_request, approve_request, reject_request}
use review_workflow.Workflow.{
  EffectOf, unchanged, quiet, move, approve, reject, Decides, IsKeyed, append_all, on_memory,
}

module _ (svc : Service Memory) (zero_time : Time) (actor : Actor)
    (id key decision comment : String) (w : World Memory) where
  -- The decided form of a request that is stored, and the audit entry of the decision.
  abbrev decided : Request → Request
  decided = decide decision (svc.runtime.clock (suc w.ticks))

  abbrev review_entry : Request → AuditEntry
  review_entry r =
      audit_entry (new_id "audit" (svc.runtime.random (suc w.draws)))
        (svc.runtime.clock (suc (suc w.ticks))) (decided r) actor decision
        (decision_description decision comment)

  review_request-missing :
      lookup id w.state.requests ≡ none
      → (review_request (on_memory svc) zero_time actor id key decision comment w).1.state ≡ w.state
  unfolding review_request Memory.get_request
  review_request-missing e = ground arith

  review_request-stored :
      (r : Request)
      → lookup id w.state.requests ≡ some r
      → r.id ≡ id
      → let s' =
          (review_request (on_memory svc) zero_time actor id key decision comment w).1.state in
        ((s'.requests ≡ w.state.requests) × (s'.audit ≡ w.state.audit))
        ⊎ ((r.status ≡ pending_review)
            × (can_review actor r ≡ true)
            × (actor.id ≢ r.requester_id)
            × (s'.requests ≡ insert r.id (decided r) w.state.requests)
            × (s'.audit ≡ append_all r.id (review_entry r ∷ []) w.state.audit))
  unfolding review_request Memory.get_request Memory.get_idempotency Memory.create_idempotency
      Memory.update_request Memory.append_audit Memory.create_review
  review_request-stored r e f =
      ground (arith, eq_ℤ_iff r.version r.version, eq_iff actor.id r.requester_id)

  -- Whoever passes the checks may decide on the request.
  review-Decides :
      (r : Request)
      → can_review actor r ≡ true
      → actor.id ≢ r.requester_id
      → Decides decision r.requester_id r.assigned_reviewer_id (review_entry r)
  unfolding can_review
  review-Decides r may apart = (refl, apart, ground (arith, eq_iff r.assigned_reviewer_id actor.id))

module _ (svc : Service Memory) (zero_time : Time) (actor : Actor) (id key comment : String)
    (w : World Memory) (keyed : IsKeyed w.state) where
  pub approve_request-Effect :
      EffectOf svc w.state
        (approve_request (on_memory svc) zero_time actor id key comment w).1.state
  unfolding approve_request decide
  approve_request-Effect = elim (Option-cases (lookup id w.state.requests)) [
    | inl e ↦
        unchanged svc (review_request-missing svc zero_time actor id key "approved" comment w e)
    | inr (r, e) ↦
        elim (review_request-stored svc zero_time actor id key "approved" comment w r e
          (keyed id r e)) [
            | inl (same, trail) ↦ quiet same trail
            | inr (p, may, apart, changed, trail) ↦
                move r (decided svc zero_time actor id key "approved" comment w r) _
                  (approve _ (ground arith) p refl
                    (review-Decides svc zero_time actor id key "approved" comment w r may apart)
                    refl (λ h. cc))
                  (ap (λ k. lookup k w.state.requests) (keyed id r e) ∙ e) changed trail
          ]
  ]

  pub reject_request-Effect :
      EffectOf svc w.state (reject_request (on_memory svc) zero_time actor id key comment w).1.state
  unfolding reject_request decide
  reject_request-Effect = elim (Option-cases (lookup id w.state.requests)) [
    | inl e ↦
        unchanged svc (review_request-missing svc zero_time actor id key "rejected" comment w e)
    | inr (r, e) ↦
        elim (review_request-stored svc zero_time actor id key "rejected" comment w r e
          (keyed id r e)) [
            | inl (same, trail) ↦ quiet same trail
            | inr (p, may, apart, changed, trail) ↦
                move r (decided svc zero_time actor id key "rejected" comment w r) _
                  (reject _ (ground arith) p refl
                    (review-Decides svc zero_time actor id key "rejected" comment w r may apart)
                    refl refl)
                  (ap (λ k. lookup k w.state.requests) (keyed id r e) ∙ e) changed trail
          ]
  ]
