-- ===== src/Application/Requests/Visibility.antt =====
-- Who sees what, over the memory store (docs/failure-scenarios.md, "Unauthorized visibility").
use review_workflow.Base.{
  ◌≡◌, ◌⊎◌, sym, ap, ◌∙◌, true, false, Bool, Bool-cases, Option-cases, some, String, List, [], ◌∷◌,
  lookup, values, eq_iff, arith, ◌==◌, All, inl, inr, trim_space,
}
use mathlib.Core.Path.{subst}
use review_workflow.Domain.{Actor, Request, RequestFilter, employee, reviewer, admin}
use review_workflow.Repository.Memory.{Memory, select, matches_filter, sort_by}
use review_workflow.Repository.Memory
use review_workflow.Repository.Memory.Query.{All-sort_by, created}
use review_workflow.Application.Errors.{ok}
use review_workflow.Application.Monad.{Service, World}
use review_workflow.Application.Helpers.{can_view}
use review_workflow.Application.Requests.{get_request, list_requests}
use review_workflow.Workflow.{on_memory}

-- An admin, the requester, or the assigned reviewer.
abbrev pub MayView : Actor → Request → Type 0
MayView actor r =
    (actor.role ≡ admin)
    ⊎ (r.requester_id ≡ actor.id)
    ⊎ ((actor.role ≡ reviewer) × (r.assigned_reviewer_id ≡ actor.id))

can_view-MayView : (actor : Actor) (r : Request) → can_view actor r ≡ true → MayView actor r
unfolding can_view
can_view-MayView actor r h =
    ground (arith, eq_iff r.requester_id actor.id, eq_iff r.assigned_reviewer_id actor.id)

All-select :
    (P : Request → Type 0) (p : Request → Bool) (rs : List Request)
    → ((r : Request) → p r ≡ true → P r)
    → All P (select p rs)
unfolding select
All-select P p [] h = tt
All-select P p (r ∷ rs) h = elim (Bool-cases (p r)) [
  | inl e ↦ rw e (h r e, All-select P p rs h)
  | inr e ↦ rw e (All-select P p rs h)
]

matches_filter-own :
    (filter : RequestFilter) (r : Request)
    → (filter.requester_id == "") ≡ false
    → matches_filter filter r ≡ true
    → r.requester_id ≡ filter.requester_id
unfolding matches_filter
matches_filter-own filter r named h = ground (arith, eq_iff r.requester_id filter.requester_id)

module _ (svc : Service Memory) (actor : Actor) (w : World Memory) where
  get_request-found :
      (id : String) (r : Request)
      → (get_request (on_memory svc) actor id w).0 ≡ ok r
      → (lookup id w.state.requests ≡ some r) × (can_view actor r ≡ true)
  unfolding get_request Memory.get_request
  get_request-found id r done = elim (Option-cases (lookup id w.state.requests)) [
    | inl e ↦ ground arith
    | inr (q, e) ↦ ground arith
  ]

  -- A read gives back the stored request, and only to an admin, its requester or its assigned
  -- reviewer.
  pub get_request-MayView :
      (id : String) (r : Request)
      → (get_request (on_memory svc) actor id w).0 ≡ ok r
      → (lookup id w.state.requests ≡ some r) × MayView actor r
  get_request-MayView id r done =
      let (stored, may) = get_request-found id r done in (stored, can_view-MayView actor r may)

  -- The filter that an employee's listing goes by.
  abbrev own : RequestFilter → RequestFilter
  own filter = record filter { requester_id = actor.id; reviewer_id = "" }

  list_requests-employee :
      (filter : RequestFilter) (rs : List Request)
      → actor.role ≡ employee
      → (list_requests (on_memory svc) actor filter w).0 ≡ ok rs
      → ((trim_space actor.id == "") ≡ false)
        × (rs ≡ sort_by created (select (matches_filter (own filter)) (values w.state.requests)))
  unfolding list_requests Memory.list_requests
  list_requests-employee filter rs role done = ground arith

  named_of_trimmed : (trim_space actor.id == "") ≡ false → (actor.id == "") ≡ false
  unfolding trim_space
  named_of_trimmed h = elim (Bool-cases (actor.id == "")) [
    | inr other ↦ other
    | inl blank ↦
        let clash : true ≡ false =
          sym (ap (λ s. trim_space s == "") ((eq_iff actor.id "").0 blank)) ∙ h in
        cc
  ]

  -- An employee lists his own requests alone, whatever filter he gives.
  pub list_requests-own :
      (filter : RequestFilter) (rs : List Request)
      → actor.role ≡ employee
      → (list_requests (on_memory svc) actor filter w).0 ≡ ok rs
      → All (λ r. r.requester_id ≡ actor.id) rs
  list_requests-own filter rs role done =
      let (trimmed, listed) = list_requests-employee filter rs role done in
      let own_request = λ (r : Request). r.requester_id ≡ actor.id in
      subst (All own_request) (sym listed) (
        All-sort_by created own_request _ (
          All-select own_request (matches_filter (own filter)) (values w.state.requests)
            (λ r m. matches_filter-own (own filter) r (named_of_trimmed trimmed) m)))

  -- With a filter that names a requester, a reviewer lists all stored requests that match it,
  -- assigned to the reviewer or not, in order of creation.
  pub list_requests-reviewer_sees :
      (filter : RequestFilter) (rs : List Request)
      → actor.role ≡ reviewer
      → (filter.requester_id == "") ≡ false
      → (list_requests (on_memory svc) actor filter w).0 ≡ ok rs
      → rs ≡ sort_by created (select (matches_filter filter) (values w.state.requests))
  unfolding list_requests Memory.list_requests
  list_requests-reviewer_sees filter rs role named done = ground arith
