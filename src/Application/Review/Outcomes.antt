-- ===== src/Application/Review/Outcomes.antt =====
-- The outcomes of a review over the memory store, errors included.
use review_workflow.Base.{
  ◌==◌, ◌≡◌, ◌≢◌, ◌⊎◌, inl, inr, Bool-cases, false, none, some, String, [], ◌∷◌, lookup, eq_iff,
  arith, ◌<>◌, trim_space,
}
use review_workflow.Domain.{Time, Actor, Request, IdempotencyRecord, approved, pending_review}
use review_workflow.Repository.Memory.{Memory, compound}
use review_workflow.Repository.Memory
use review_workflow.Application.Errors.{ok, err, err_forbidden}
use review_workflow.Application.Monad.{Service, World}
use review_workflow.Application.Helpers.{fingerprint, can_review}
use review_workflow.Application.Authority.{MayDecide, can_review-MayDecide}
use review_workflow.Application.Review.{approve_request, reject_request, zero_request}
use review_workflow.Workflow.{on_memory}

module _ (svc : Service Memory) (zero_time : Time) (actor : Actor) (id key comment : String)
    (w : World Memory) (r : Request) (stored : lookup id w.state.requests ≡ some r) where
  approve_request-blank_key :
      r.status ≡ approved
      → trim_space key ≡ ""
      → approve_request (on_memory svc) zero_time actor id key comment w
        ≡ (ok (zero_request zero_time), w)
  unfolding approve_request Memory.get_request
  approve_request-blank_key was blank = ground (arith, eq_iff (trim_space key) "")

  approve_request-other_payload :
      (found : IdempotencyRecord)
      → r.status ≡ approved
      → lookup (compound ("approved:" <> id) key) w.state.idempotency ≡ some found
      → found.fingerprint ≢ fingerprint svc.runtime ("approved" ∷ comment ∷ [])
      → approve_request (on_memory svc) zero_time actor id key comment w
        ≡ (ok (zero_request zero_time), w)
  unfolding approve_request Memory.get_request Memory.get_idempotency
  approve_request-other_payload found was recorded other =
      ground (arith, eq_iff found.fingerprint (fingerprint svc.runtime ("approved" ∷ comment ∷ [])))

  -- A repeated approval that the idempotency check refuses, because the key is blank or was used
  -- with another comment, is reported as a success with an empty request, and writes nothing.
  pub approve_request-swallows_error :
      r.status ≡ approved
      → (trim_space key ≡ "")
        ⊎ ((found : IdempotencyRecord) × (lookup
                (compound ("approved:" <> id) key)
                w.state.idempotency
              ≡ some found)
            × (found.fingerprint ≢ fingerprint svc.runtime ("approved" ∷ comment ∷ [])))
      → approve_request (on_memory svc) zero_time actor id key comment w
        ≡ (ok (zero_request zero_time), w)
  approve_request-swallows_error was (inl blank) = approve_request-blank_key was blank
  approve_request-swallows_error was (inr (found, recorded, other)) =
      approve_request-other_payload found was recorded other

  refused-forbidden :
      r.status ≡ pending_review
      → (can_review actor r ≡ false) ⊎ (actor.id ≡ r.requester_id)
      → (approve_request (on_memory svc) zero_time actor id key comment w ≡ (err err_forbidden, w))
        × (reject_request (on_memory svc) zero_time actor id key comment w ≡ (err err_forbidden, w))
  unfolding approve_request reject_request can_review Memory.get_request
  refused-forbidden was refused = ground (arith, eq_iff actor.id r.requester_id)

  -- Nobody decides on a stored pending request but an admin or the reviewer to whom it is assigned,
  -- and not on a request of his own: the call is refused and nothing is written, for either
  -- decision, whatever the key.
  pub review-forbidden :
      r.status ≡ pending_review
      → (MayDecide actor r → ⊥) ⊎ (actor.id ≡ r.requester_id)
      → (approve_request (on_memory svc) zero_time actor id key comment w ≡ (err err_forbidden, w))
        × (reject_request (on_memory svc) zero_time actor id key comment w ≡ (err err_forbidden, w))
  review-forbidden was (inr own) = refused-forbidden was (inr own)
  review-forbidden was (inl may_not) = elim (Bool-cases (can_review actor r)) [
    | inl may ↦ absurd (may_not (can_review-MayDecide actor r may))
    | inr e ↦ refused-forbidden was (inl e)
  ]

  -- A repeated approval of an approved request, with a key that is not blank and is new or was used
  -- for the same decision and comment, gives the request to any actor and leaves the requests and
  -- the audit trails as they were.
  pub approve_request-again :
      r.status ≡ approved
      → (trim_space key == "") ≡ false
      → (lookup (compound ("approved:" <> id) key) w.state.idempotency ≡ none)
        ⊎ ((found : IdempotencyRecord) × (lookup
                (compound ("approved:" <> id) key)
                w.state.idempotency
              ≡ some found)
            × (found.fingerprint ≡ fingerprint svc.runtime ("approved" ∷ comment ∷ [])))
      → let (result, w') = approve_request (on_memory svc) zero_time actor id key comment w in
        (result ≡ ok r) × (w'.state.requests ≡ w.state.requests) × (w'.state.audit ≡ w.state.audit)
  unfolding approve_request Memory.get_request Memory.get_idempotency Memory.create_idempotency
  approve_request-again was named (inl new) = ground arith
  approve_request-again was named (inr (found, recorded, same)) =
      ground (arith, eq_iff found.fingerprint (fingerprint svc.runtime ("approved" ∷ comment ∷ [])))
