-- ===== src/Repository/Memory/Fulfils.antt =====
-- internal/repository/memory/store.go against the contract of the interface.
use review_workflow.Base.{
  Bool, true, Dict, List, [], ◌∷◌, All, ◌≡◌, refl, sym, ap, inl, inr, Bool-cases, String, Option,
  none, some, arith, lookup, lookup-insert,
}
use review_workflow.Base.Int.{ℤ, eq_ℤ, eq_ℤ_iff}
use mathlib.Core.Path.{subst}
use review_workflow.Domain.{Request, IdempotencyRecord}
use review_workflow.Application.Contract.{
  Contract, Agrees, GetLaw, UpdateLaw, IsDistinct, IsPending, IsRunnable,
}
use review_workflow.Repository.Memory.{
  needs_reminder, ready_for_execution, list_requests_needing_reminder,
  list_requests_ready_for_execution, Memory, memory_store, found, create_request, get_request,
  list_requests, update_request, replace_current, append_audit, list_audit, create_review,
  get_idempotency, create_idempotency, insert_absent, append_job_run,
}
use review_workflow.Repository.Memory.Allowed.{needs_reminder-IsPending, ready-IsRunnable}
use review_workflow.Repository.Memory.Listing.{
  IsMap, IsMap-keyed, insert-IsMap, Listed, Listed-collect,
}

abbrev pub HasMap : Memory → Type 0
HasMap s = IsMap s.requests

abbrev pub held : Memory → String → Option Request
held s k = lookup k s.requests

Agrees-refl : (r : Request) → Agrees r r
Agrees-refl r = record {
  type_kept = refl;
  target_kept = refl;
  justification_kept = refl;
  requester_kept = refl;
  status_kept = refl;
  version_kept = refl;
  attempts_kept = refl;
  reminders_kept = refl;
}

get-GetLaw :
    (id : String) (s : Memory) (o : Option Request)
    → lookup id s.requests ≡ o
    → GetLaw held id s (found o)
get-GetLaw id s none e = λ _. e
get-GetLaw id s (some r) e = e

update-IsMap :
    (req : Request) (expected : ℤ) (s : Memory)
    → HasMap s
    → HasMap (update_request req expected s).1
unfolding update_request
update-IsMap req expected s v = ground (arith, insert-IsMap req.id req s.requests refl v)

update-UpdateLaw :
    (req : Request) (expected : ℤ) (s : Memory) (o : Option Request)
    → lookup req.id s.requests ≡ o
    → UpdateLaw held req expected s (replace_current o req expected s)
unfolding replace_current
update-UpdateLaw req expected s none e = λ k. refl
update-UpdateLaw req expected s (some old) e = elim (Bool-cases (eq_ℤ old.version expected)) [
  | inl same ↦ rw same (
    old,
    req,
    e,
    (eq_ℤ_iff old.version expected).0 same,
    Agrees-refl req,
    λ k. lookup-insert req.id k req s.requests,
  )
  | inr other ↦ rw other (λ k. refl)
]

create_idempotency-requests :
    (rec : IdempotencyRecord) (s : Memory) → (create_idempotency rec s).1.requests ≡ s.requests
unfolding create_idempotency insert_absent
create_idempotency-requests rec s = ground arith

Listed-held :
    (p : Request → Bool) (Due : Request → Type 0)
    → ((r : Request) → p r ≡ true → Due r)
    → (m : Dict Request) (rs : List Request) → Listed p m rs
    → All (λ r. lookup r.id m ≡ some r) rs × IsDistinct rs × All Due rs
Listed-held p Due why m [] h = (tt, tt, tt)
Listed-held p Due why m (r ∷ rs) (stored, selected, apart, others) =
    let (later, distinct, due) = Listed-held p Due why m rs others in
    ((stored, later), (apart, distinct), (why r selected, due))

-- The memory store fulfils the contract: on states whose requests are stored under their own
-- identifiers, no key twice, with the map of the requests as what is held.
pub memory_store-Contract : Contract memory_store HasMap held
unfolding create_request get_request list_requests update_request append_audit list_audit
    create_review get_idempotency append_job_run list_requests_needing_reminder
    list_requests_ready_for_execution
memory_store-Contract = record {
  keyed = λ s v k r e. IsMap-keyed s.requests v k r e;
  gets = λ id s v. get-GetLaw id s (lookup id s.requests) refl;
  get_quiet = λ id s v. (v, λ k. refl);
  updates = λ req expected s v. (
    update-IsMap req expected s v,
    update-UpdateLaw req expected s (lookup req.id s.requests) refl,
  );
  creates = λ req s v. (
    insert-IsMap req.id req s.requests refl v,
    (req, Agrees-refl req, λ k. lookup-insert req.id k req s.requests),
  );
  list_quiet = λ filter s v. (v, λ k. refl);
  audit_quiet = λ entry s v. (v, λ k. refl);
  list_audit_quiet = λ id s v. (v, λ k. refl);
  review_quiet = λ review s v. (v, λ k. refl);
  key_read_quiet = λ scope key s v. (v, λ k. refl);
  key_quiet = λ rec s v.
      let same = create_idempotency-requests rec s in
      (subst IsMap (sym same) v, λ k. ap (lookup k) same);
  run_quiet = λ run s v. (v, λ k. refl);
  reminders_listed = λ before limit s v. (
    v,
    λ k. refl,
    Listed-held (needs_reminder before) IsPending (needs_reminder-IsPending before) s.requests _
        (Listed-collect (needs_reminder before) limit s.requests v),
  );
  executions_listed = λ before limit s v. (
    v,
    λ k. refl,
    Listed-held (ready_for_execution before) IsRunnable (ready-IsRunnable before) s.requests _
        (Listed-collect (ready_for_execution before) limit s.requests v),
  );
}
