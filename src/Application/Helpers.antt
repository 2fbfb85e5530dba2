-- ===== src/Application/Helpers.antt =====
-- The helpers of internal/application/service.go: access checks, idempotency and audit entries.
use review_workflow.Base.{
  Bool, not, ◌&&◌, ◌||◌, String, ◌<>◌, ◌==◌, List, [], ◌∷◌, trim_space, if◌then◌else◌,
}
use review_workflow.Domain.{
  Time, admin, is_admin, is_reviewer, Actor, Request, AuditEntry, IdempotencyRecord,
}
use review_workflow.Application.Errors.{
  Result, ok, err, err_invalid_input, err_forbidden, err_not_found, err_idempotency_key_used, wrap,
  is_not_found,
}
use review_workflow.Application.Monad.{
  Runtime, Service, M, ◌>>=◌, pure, raise, call, attempt, now_utc, fresh_id,
}

unfoldable pub can_view : Actor → Request → Bool
can_view actor req =
    is_admin actor.role
    || req.requester_id == actor.id
    || req.assigned_reviewer_id == actor.id && is_reviewer actor.role

unfoldable pub can_review : Actor → Request → Bool
can_review actor req =
    is_admin actor.role || is_reviewer actor.role && req.assigned_reviewer_id == actor.id

unfoldable pub join : List String → String
join [] = ""
join (p ∷ []) = p
join (p ∷ q ∷ ps) = (p <> "|") <> join (q ∷ ps)

unfoldable pub fingerprint : Runtime → List String → String
unfolding join
fingerprint rt parts = rt.sha256_hex (join parts)

unfoldable pub decision_description : String → String → String
decision_description decision comment =
    if trim_space comment == "" then decision else (decision <> ": ") <> trim_space comment

abbrev pub system_actor : Actor
system_actor = record { id = "system"; role = admin }

-- The literal of `auditFor`, with its identifier and time.
abbrev pub audit_entry : String → Time → Request → Actor → String → String → AuditEntry
audit_entry id at req actor action description = record {
  id = id;
  request_id = req.id;
  actor_id = actor.id;
  actor_role = actor.role;
  action = action;
  description = description;
  created_at = at;
}

module _ {S : Type 0} (svc : Service S) where
  unfoldable pub audit_for : Request → Actor → String → String → M S AuditEntry
  audit_for req actor action description = do
    id ← fresh_id svc.runtime "audit"
    at ← now_utc svc.runtime
    pure (audit_entry id at req actor action description)

  unfoldable pub require_owned_or_admin : Actor → String → M S Request
  require_owned_or_admin actor request_id = do
    req ← call (svc.store.get_request request_id)
    if is_admin actor.role || req.requester_id == actor.id then pure req else raise err_forbidden

  -- The call after a lookup of the record, by how that ended. A record with the same payload is
  -- reported by `ErrNotFound`.
  unfoldable pub check_record :
      String → String → String → String → Result IdempotencyRecord → M S (Unit {0})
  check_record scope key request_id payload (ok found) =
      if not (found.fingerprint == payload)
      then raise err_idempotency_key_used
      else raise err_not_found
  check_record scope key request_id payload (err e) =
      if not (is_not_found e.kind) then raise e else do
        at ← now_utc svc.runtime
        call (
            svc.store.create_idempotency (record {
              key = key;
              scope = scope;
              fingerprint = payload;
              request_id = request_id;
              created_at = at;
            }))

  unfoldable pub ensure_idempotency : String → String → String → String → M S (Unit {0})
  unfolding check_record
  ensure_idempotency scope key request_id payload =
      if trim_space key == ""
      then raise (wrap err_invalid_input "idempotency key is required")
      else do
        found ← attempt (call (svc.store.get_idempotency scope key))
        check_record scope key request_id payload found
