-- ===== src/Application/Requests/Replay.antt =====
-- Repeated submissions over the memory store (docs/failure-scenarios.md, "Duplicate submit").
use review_workflow.Base.{
  ◌≡◌, refl, sym, ap, ◌∙◌, true, false, none, some, String, lookup, insert, lookup-insert_self,
  eq_iff, arith, ◌==◌, ◌||◌, ◌<>◌, trim_space, Option-cases, inl, inr, suc,
}
use review_workflow.Base.Int.{eq_ℤ_iff}
use review_workflow.Domain.{Actor, Request, IdempotencyRecord, is_admin}
use review_workflow.Repository.Memory.{Memory, compound}
use review_workflow.Repository.Memory
use review_workflow.Application.Errors.{ok}
use review_workflow.Application.Monad.{Service, World}
use review_workflow.Application.Requests.{submit_request, submit}
use review_workflow.Workflow.{on_memory, IsKeyed}

module _ (svc : Service Memory) (actor : Actor) (id key : String) (w : World Memory) where
  abbrev submitted : Request → Request
  submitted = submit svc.default_reviewer_id (svc.runtime.clock (suc w.ticks))

  abbrev pub submission_record : IdempotencyRecord
  submission_record = record {
    key = key;
    scope = "submit:" <> id;
    fingerprint = actor.id;
    request_id = id;
    created_at = svc.runtime.clock w.ticks;
  }

  -- A recorded key of the same actor: the stored request is returned and nothing is written.
  pub submit_request-recorded :
      (r : Request) (found : IdempotencyRecord)
      → lookup id w.state.requests ≡ some r
      → (is_admin actor.role || r.requester_id == actor.id) ≡ true
      → (trim_space key == "") ≡ false
      → lookup (compound ("submit:" <> id) key) w.state.idempotency ≡ some found
      → found.fingerprint ≡ actor.id
      → submit_request (on_memory svc) actor id key w ≡ (ok r, w)
  unfolding submit_request Memory.get_request Memory.get_idempotency
  submit_request-recorded r found stored may named recorded same =
      ground (arith, eq_iff found.fingerprint actor.id)

  -- The first successful call with a key: what it has found, and what it leaves for the next.
  submit_request-first :
      (q r : Request)
      → lookup id w.state.requests ≡ some q
      → q.id ≡ id
      → lookup (compound ("submit:" <> id) key) w.state.idempotency ≡ none
      → (submit_request (on_memory svc) actor id key w).0 ≡ ok r
      → let s' = (submit_request (on_memory svc) actor id key w).1.state in
        ((is_admin actor.role || q.requester_id == actor.id) ≡ true)
        × ((trim_space key == "") ≡ false)
        × (r ≡ submitted q)
        × (s'.requests ≡ insert q.id (submitted q) w.state.requests)
        × (s'.idempotency
            ≡ insert (compound ("submit:" <> id) key) submission_record w.state.idempotency)
  unfolding submit_request Memory.get_request Memory.get_idempotency Memory.create_idempotency
      Memory.update_request Memory.append_audit
  submit_request-first q r stored same new done = ground (arith, eq_ℤ_iff q.version q.version)

  -- A successful call with a key that was recorded before.
  submit_request-again :
      (q r : Request) (found : IdempotencyRecord)
      → lookup id w.state.requests ≡ some q
      → lookup (compound ("submit:" <> id) key) w.state.idempotency ≡ some found
      → (submit_request (on_memory svc) actor id key w).0 ≡ ok r
      → submit_request (on_memory svc) actor id key w ≡ (ok r, w)
  unfolding submit_request Memory.get_request Memory.get_idempotency
  submit_request-again q r found stored recorded done = ground arith

  submit_request-missing_error :
      (r : Request)
      → lookup id w.state.requests ≡ none
      → (submit_request (on_memory svc) actor id key w).0 ≡ ok r
      → ⊥
  unfolding submit_request Memory.get_request
  submit_request-missing_error r stored done = ground arith

module _ (svc : Service Memory) (actor : Actor) (id key : String) (w : World Memory) where
  -- Where every request is stored under its own identifier, after a successful submission the same
  -- call returns the same request and changes nothing.
  pub submit_request-twice :
      (r : Request)
      → IsKeyed w.state
      → (submit_request (on_memory svc) actor id key w).0 ≡ ok r
      → let w' = (submit_request (on_memory svc) actor id key w).1 in
        submit_request (on_memory svc) actor id key w' ≡ (ok r, w')
  unfolding submit
  submit_request-twice r keyed done = elim (Option-cases (lookup id w.state.requests)) [
    | inl e ↦ absurd (submit_request-missing_error svc actor id key w r e done)
    | inr (q, e) ↦
        elim (Option-cases (lookup (compound ("submit:" <> id) key) w.state.idempotency)) [
          | inr (found, f) ↦
              let same = submit_request-again svc actor id key w q r found e f done in rw same same
          | inl f ↦
              let same = keyed id q e in
              let (may, named, left, changed, recorded) =
                submit_request-first svc actor id key w q r e same f done in
              let w' = (submit_request (on_memory svc) actor id key w).1 in
              submit_request-recorded svc actor id key w' r (submission_record svc actor id key w)
                (ap (lookup id) changed
                  ∙ ap
                      (λ k.
                        lookup k (insert q.id (submitted svc actor id key w q) w.state.requests))
                      (sym same)
                  ∙ lookup-insert_self q.id _ w.state.requests
                  ∙ ap some (sym left))
                (ap (λ x. is_admin actor.role || x.requester_id == actor.id) left ∙ may) named
                (ap (lookup (compound ("submit:" <> id) key)) recorded
                  ∙ lookup-insert_self (compound ("submit:" <> id) key) _ w.state.idempotency)
                refl
        ]
  ]
