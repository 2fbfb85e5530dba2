-- ===== src/Application/Contract/Helpers.antt =====
-- The helpers of internal/application/service.go over a store with the contract.
use review_workflow.Base.{◌≡◌, refl, Bool, true, false, String}
use review_workflow.Base.Int.{incr}
use review_workflow.Domain.{Actor, Request, IdempotencyRecord}
use review_workflow.Application.Errors.{Error, Result, ok, err}
use review_workflow.Application.Monad.{Service, World, call, guard}
use review_workflow.Application.Helpers.{
  audit_for, require_owned_or_admin, ensure_idempotency, check_record,
}
use review_workflow.Application.Contract.Protocol.{Protocol}
use review_workflow.Application.Contract.Keeps.{Keeps, keeps_rules, Keeps-call}

-- A change of the request with an identifier.
abbrev pub Named : String → (Request → Request → Type 0) → Request → Request → Type 0
Named id P r r' = (r.id ≡ id) × P r r'

-- What every change of a request keeps, and the version that it moves on by one.
pub record Revised (r r' : Request) : Type 0 where
  pub same_requester : r'.requester_id ≡ r.requester_id
  pub same_type : r'.type ≡ r.type
  pub same_target : r'.target_resource ≡ r.target_resource
  pub same_justification : r'.justification ≡ r.justification
  pub bumped : r'.version ≡ incr r.version

module _ {S : Type 0} (svc : Service S) (p : Protocol svc.store) where
  pub Keeps-get : (id : String) → Keeps p (call (svc.store.get_request id))
  Keeps-get id = Keeps-call p (svc.store.get_request id) (p.get_waits id)

  pub Keeps-audit_for :
      (r : Request) (actor : Actor) (action description : String)
      → Keeps p (audit_for svc r actor action description)
  unfolding audit_for
  Keeps-audit_for r actor action description = search keeps_rules

  Keeps-check_record :
      (scope key request_id payload : String) (found : Result IdempotencyRecord)
      → Keeps p (check_record svc scope key request_id payload found)
  unfolding check_record
  Keeps-check_record scope key request_id payload (ok found) = search keeps_rules
  Keeps-check_record scope key request_id payload (err e) = search (keeps_rules, p.key_waits)

  pub Keeps-ensure_idempotency :
      (scope key request_id payload : String)
      → Keeps p (ensure_idempotency svc scope key request_id payload)
  unfolding ensure_idempotency
  Keeps-ensure_idempotency scope key request_id payload =
      search (keeps_rules, p.key_read_waits, Keeps-check_record)

  pub Keeps-require : (actor : Actor) (id : String) → Keeps p (require_owned_or_admin svc actor id)
  unfolding require_owned_or_admin
  Keeps-require actor id = search (keeps_rules, Keeps-get)

  pub guard-passed :
      (b : Bool) (e : Error) (w : World S) (u : Unit {0}) → (guard b e w).0 ≡ ok u → b ≡ true
  guard-passed true e w u h = refl
  guard-passed false e w u h = cc
