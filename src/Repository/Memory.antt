-- ===== src/Repository/Memory.antt =====
-- internal/repository/memory/store.go. Each method holds the mutex, so it is one atomic step on
-- the maps. A map is an association list; a `range` visits it in the list's order, which a
-- theorem about every store leaves open.
pub mod Allowed
pub mod Query
pub mod Listing
pub mod Fulfils
use review_workflow.Base.{
  Bool, true, false, ◌&&◌, ◌||◌, String, ◌<>◌, ◌==◌, Option, none, some, List, [], ◌∷◌, ◌++◌, suc,
  ℕ, Dict, lookup, insert, values, if◌then◌else◌,
}
use review_workflow.Base.Int.{ℤ, pos, ltb_ℤ, leb_ℤ, eq_ℤ}
use review_workflow.Domain.{
  Time, status_text, is_pending_review, is_approved, is_execution_failed, Request, AuditEntry,
  ReviewAction, JobRun, IdempotencyRecord, RequestFilter,
}
use review_workflow.Application.Errors.{Result, ok, err, err_not_found, err_conflict}
use review_workflow.Application.Interfaces.{Op, Store}

pub record Memory : Type 0 where
  pub requests : Dict Request
  pub audit : Dict (List AuditEntry)
  pub reviews : Dict (List ReviewAction)
  pub idempotency : Dict IdempotencyRecord
  pub job_runs : Dict (List JobRun)

unfoldable pub new_store : Memory
new_store = record { requests = []; audit = []; reviews = []; idempotency = []; job_runs = [] }

-- `m[k]` of a map of slices, and `m[k] = append(m[k], v)`.
abbrev pub slice_at : {A : Type 0} → String → Dict (List A) → List A
slice_at k m = elim (lookup k m) [ none ↦ [] | some xs ↦ xs ]

unfoldable pub append_at : {A : Type 0} → String → A → Dict (List A) → Dict (List A)
append_at k v m = insert k (slice_at k m ++ v ∷ []) m

unfoldable pub create_request : Request → Op Memory (Unit {0})
create_request req s = (ok tt, record s { requests = insert req.id req s.requests })

-- The value of a map access, or `ErrNotFound`.
abbrev pub found : {A : Type 0} → Option A → Result A
found none = err err_not_found
found (some a) = ok a

unfoldable pub get_request : String → Op Memory Request
get_request id s = (found (lookup id s.requests), s)

-- The three `continue`s of the loop, as the condition to keep a request.
unfoldable pub matches_filter : RequestFilter → Request → Bool
matches_filter filter req =
    (filter.requester_id == "" || req.requester_id == filter.requester_id)
    && (filter.reviewer_id == "" || req.assigned_reviewer_id == filter.reviewer_id)
    && (status_text filter.status == "" || status_text req.status == status_text filter.status)

unfoldable pub select : {A : Type 0} → (A → Bool) → List A → List A
select p [] = []
select p (x ∷ xs) = let rest = select p xs in if p x then x ∷ rest else rest

-- `sort.Slice` by the time of creation. Entries of one time come in an order that Go leaves open;
-- this is one that it may give.
unfoldable pub insert_by : {A : Type 0} → (A → Time) → A → List A → List A
insert_by time x [] = x ∷ []
insert_by time x (y ∷ ys) =
    let rest = insert_by time x ys in if ltb_ℤ (time y) (time x) then y ∷ rest else x ∷ y ∷ ys

unfoldable pub sort_by : {A : Type 0} → (A → Time) → List A → List A
unfolding insert_by
sort_by time [] = []
sort_by time (x ∷ xs) = insert_by time x (sort_by time xs)

unfoldable pub list_requests : RequestFilter → Op Memory (List Request)
unfolding select matches_filter sort_by values
list_requests filter s =
    (ok (sort_by (λ r. r.created_at) (select (matches_filter filter) (values s.requests))), s)

-- The version check of `UpdateRequest` against the stored request.
unfoldable pub replace_current : Option Request → Request → ℤ → Op Memory (Unit {0})
replace_current none req expected s = (err err_not_found, s)
replace_current (some current) req expected s =
    if eq_ℤ current.version expected
    then (ok tt, record s { requests = insert req.id req s.requests })
    else (err err_conflict, s)

unfoldable pub update_request : Request → ℤ → Op Memory (Unit {0})
unfolding replace_current
update_request req expected s = replace_current (lookup req.id s.requests) req expected s

unfoldable pub append_audit : AuditEntry → Op Memory (Unit {0})
append_audit entry s = (ok tt, record s { audit = append_at entry.request_id entry s.audit })

unfoldable pub list_audit : String → Op Memory (List AuditEntry)
unfolding sort_by
list_audit id s = (ok (sort_by (λ e. e.created_at) (slice_at id s.audit)), s)

unfoldable pub create_review : ReviewAction → Op Memory (Unit {0})
create_review review s =
    (ok tt, record s { reviews = append_at review.request_id review s.reviews })

-- The key of the map of idempotency records.
unfoldable pub compound : String → String → String
compound scope key = (scope <> "|") <> key

unfoldable pub get_idempotency : String → String → Op Memory IdempotencyRecord
unfolding compound
get_idempotency scope key s = (found (lookup (compound scope key) s.idempotency), s)

insert_absent : Option IdempotencyRecord → IdempotencyRecord → Op Memory (Unit {0})
insert_absent (some _) rec s = (err err_conflict, s)
insert_absent none rec s =
    (ok tt, record s { idempotency = insert (compound rec.scope rec.key) rec s.idempotency })

unfoldable pub create_idempotency : IdempotencyRecord → Op Memory (Unit {0})
unfolding compound insert_absent
create_idempotency rec s = insert_absent (lookup (compound rec.scope rec.key) s.idempotency) rec s

-- `t != nil && !t.After(before)`
abbrev pub not_after : Option Time → Time → Bool
not_after none before = false
not_after (some t) before = leb_ℤ t before

-- `t == nil || t.Before(before)`
abbrev pub unset_or_before : Option Time → Time → Bool
unset_or_before none before = true
unset_or_before (some t) before = ltb_ℤ t before

unfoldable pub needs_reminder : Time → Request → Bool
needs_reminder before req =
    is_pending_review req.status
    && not_after req.submitted_at before
    && unset_or_before req.last_reminded_at before

unfoldable pub ready_for_execution : Time → Request → Bool
ready_for_execution before req =
    (is_approved req.status || is_execution_failed req.status)
    && not_after req.next_execution_at before

-- `limit > 0 && n >= limit`
abbrev pub enough : ℤ → ℕ → Bool
enough limit n = ltb_ℤ (pos 0) limit && leb_ℤ limit (pos n)

-- The loop that collects results until there are enough; `n` is their number so far.
unfoldable pub collect : {A : Type 0} → (A → Bool) → ℤ → ℕ → List A → List A
collect p limit n [] = []
collect p limit n (x ∷ xs) =
    let rest = collect p limit (suc n) xs in
    let skipped = collect p limit n xs in
    if p x then x ∷ (if enough limit (suc n) then [] else rest) else skipped

unfoldable pub list_requests_needing_reminder : Time → ℤ → Op Memory (List Request)
unfolding collect needs_reminder values
list_requests_needing_reminder before limit s =
    (ok (collect (needs_reminder before) limit 0 (values s.requests)), s)

unfoldable pub list_requests_ready_for_execution : Time → ℤ → Op Memory (List Request)
unfolding collect ready_for_execution values
list_requests_ready_for_execution before limit s =
    (ok (collect (ready_for_execution before) limit 0 (values s.requests)), s)

unfoldable pub append_job_run : JobRun → Op Memory (Unit {0})
append_job_run run s = (ok tt, record s { job_runs = append_at run.request_id run s.job_runs })

abbrev pub memory_store : Store Memory
memory_store = record {
  create_request = create_request;
  get_request = get_request;
  list_requests = list_requests;
  update_request = update_request;
  append_audit = append_audit;
  list_audit = list_audit;
  create_review = create_review;
  get_idempotency = get_idempotency;
  create_idempotency = create_idempotency;
  list_requests_needing_reminder = list_requests_needing_reminder;
  list_requests_ready_for_execution = list_requests_ready_for_execution;
  append_job_run = append_job_run;
}
