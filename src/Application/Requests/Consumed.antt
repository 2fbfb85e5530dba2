-- ===== src/Application/Requests/Consumed.antt =====
-- Submissions of a request that is no draft any more, over the memory store.
use review_workflow.Base.{
  ◌≡◌, refl, ap, ◌∙◌, false, true, none, some, String, ◌<>◌, trim_space, lookup, insert,
  lookup-insert_self, arith, ◌==◌, ◌||◌,
}
use review_workflow.Domain.{Actor, Request, is_admin, is_draft}
use review_workflow.Repository.Memory.{Memory, compound}
use review_workflow.Repository.Memory
use review_workflow.Application.Errors.{ok, err, err_conflict, wrap}
use review_workflow.Application.Monad.{Service, World}
use review_workflow.Application.Requests.{submit_request}
use review_workflow.Application.Requests.Replay.{submit_request-recorded, submission_record}
use review_workflow.Workflow.{on_memory}

module _ (svc : Service Memory) (actor : Actor) (id key : String) (w : World Memory) (r : Request)
    (stored : lookup id w.state.requests ≡ some r)
    (may : (is_admin actor.role || r.requester_id == actor.id) ≡ true)
    (late : is_draft r.status ≡ false) (named : (trim_space key == "") ≡ false)
    (new : lookup (compound ("submit:" <> id) key) w.state.idempotency ≡ none) where
  submit_request-late :
      let w' = (submit_request (on_memory svc) actor id key w).1 in
      ((submit_request (on_memory svc) actor id key w).0
        ≡ err (wrap err_conflict "only draft requests can be submitted"))
      × (w'.state.requests ≡ w.state.requests)
      × (w'.state.audit ≡ w.state.audit)
      × (w'.state.idempotency
          ≡ insert
              (compound ("submit:" <> id) key)
              (submission_record svc actor id key w)
              w.state.idempotency)
  unfolding submit_request Memory.get_request Memory.get_idempotency Memory.create_idempotency
  submit_request-late = ground arith

  -- The owner or an admin who submits a stored request that is no draft, with a new key that is not
  -- blank, is refused and nothing of the requests changes; but the key is recorded, and the same
  -- call again returns the request as a success and changes nothing.
  pub submit_request-consumes_key :
      let w' = (submit_request (on_memory svc) actor id key w).1 in
      ((submit_request (on_memory svc) actor id key w).0
        ≡ err (wrap err_conflict "only draft requests can be submitted"))
      × (w'.state.requests ≡ w.state.requests)
      × (submit_request (on_memory svc) actor id key w' ≡ (ok r, w'))
  submit_request-consumes_key =
      let (refused, kept, _, recorded) = submit_request-late in
      let w' = (submit_request (on_memory svc) actor id key w).1 in
      (
        refused,
        kept,
        submit_request-recorded svc actor id key w' r (submission_record svc actor id key w)
            (ap (lookup id) kept ∙ stored) may named
            (ap (lookup (compound ("submit:" <> id) key)) recorded
              ∙ lookup-insert_self (compound ("submit:" <> id) key) _ w.state.idempotency)
            refl,
      )
