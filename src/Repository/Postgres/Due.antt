-- ===== src/Repository/Postgres/Due.antt =====
-- The queries of the worker's passes in internal/repository/postgres/store.go.
use mathlib.Core.List.{Perm}
use mathlib.Core.List.Perm
use mathlib.Core.List as List
use review_workflow.Base.{
  ℕ, suc, zero, ◌≡◌, refl, sym, ap, ◌∙◌, Bool, ◌&&◌, ◌||◌, List, [], ◌∷◌, ◌++◌, length, take, All,
  Option, none, some, true, false, arith, if◌then◌else◌,
}
use review_workflow.Base.Int.{ℤ, pos, pos_part, leb_ℤ, eq_ℤ}
use review_workflow.Domain.{Time, Request, is_pending_review}
use review_workflow.Application.Errors.{Result, ok, err, other}
use review_workflow.Repository.Memory.{
  select, ready_for_execution, not_after, needs_reminder, unset_or_before,
}
use review_workflow.Repository.Pool.{Pool}
use review_workflow.Repository.Pool.Database.{Tables, IsDatabase, Selected, NotLater, IsOrderedBy}
use review_workflow.Repository.Postgres.{
  scan_request, collect_requests, map_result, limit_or_default, unset_or_not_after,
  list_requests_needing_reminder, list_requests_ready_for_execution,
}

abbrev drop : {A : Type 0} → ℕ → List A → List A
drop zero xs = xs
drop (suc n) [] = []
drop (suc n) (x ∷ xs) = drop n xs

collect-map : (rows : List Request) → collect_requests rows ≡ List.map scan_request rows
unfolding collect_requests
collect-map [] = refl
collect-map (row ∷ rows) = rw (collect-map rows) refl

collect-Perm :
    (rows rows' : List Request)
    → Perm rows rows'
    → Perm (collect_requests rows) (collect_requests rows')
collect-Perm rows rows' p = rw (collect-map rows, collect-map rows') (Perm.map scan_request p)

collect-take-drop :
    (n : ℕ) (rows : List Request)
    → collect_requests (take n rows) ++ collect_requests (drop n rows) ≡ collect_requests rows
unfolding collect_requests
collect-take-drop zero rows = refl
collect-take-drop (suc n) [] = refl
collect-take-drop (suc n) (row ∷ rows) = rw (collect-take-drop n rows) refl

-- The number of rows that a limit lets through.
abbrev pub at_most : ℕ → ℕ → ℕ
at_most zero m = 0
at_most (suc n) zero = 0
at_most (suc n) (suc m) = suc (at_most n m)

length-collect_take :
    (n : ℕ) (rows : List Request)
    → length (collect_requests (take n rows)) ≡ at_most n (length (collect_requests rows))
unfolding collect_requests
length-collect_take zero rows = refl
length-collect_take (suc n) [] = refl
length-collect_take (suc n) (row ∷ rows) = ap suc (length-collect_take n rows)

module _ (key : Request → Option Time)
    (kept : (row : Request) → key (scan_request row) ≡ key row) where
  collect-All :
      (a : Request) (rows : List Request)
      → All (λ b. NotLater (key a) (key b)) rows
      → All (λ b. NotLater (key (scan_request a)) (key b)) (collect_requests rows)
  unfolding collect_requests
  collect-All a [] h = tt
  collect-All a (row ∷ rows) h = (rw (kept a, kept row) h.0, collect-All a rows h.1)

  collect-IsOrderedBy :
      (rows : List Request) → IsOrderedBy key rows → IsOrderedBy key (collect_requests rows)
  unfolding collect_requests
  collect-IsOrderedBy [] h = tt
  collect-IsOrderedBy (row ∷ rows) h = (collect-All row rows h.0, collect-IsOrderedBy rows h.1)

-- The first `limit` of what meets the condition, in the order of the key: `rest` is left out.
abbrev pub IsFirst : (Request → Option Time) → ℤ → List Request → Result (List Request) → Type 0
IsFirst key limit matching (err e) = e.kind ≡ other
IsFirst key limit matching (ok rs) =
    (rest : List Request) × Perm (rs ++ rest) matching
    × IsOrderedBy key (rs ++ rest)
    × (length rs ≡ at_most (pos_part limit) (length (rs ++ rest)))

Selected-IsFirst :
    (key : Request → Option Time)
    → ((row : Request) → key (scan_request row) ≡ key row)
    → (p : Request → Bool) (limit : ℤ) (rows : List Request) (result : Result (List Request))
    → Selected (record { where_ = p; order_by = some key; limit = some limit }) rows result
    → IsFirst key limit (collect_requests (select p rows)) (map_result collect_requests result)
Selected-IsFirst key kept p limit rows (err e) failed = failed
Selected-IsFirst key kept p limit rows (ok found) (all, perm, ordered, e) =
    let n = pos_part limit in
    let split =
      ap (λ f. collect_requests f ++ collect_requests (drop n all)) e ∙ collect-take-drop n all in
    (
      collect_requests (drop n all),
      rw split (collect-Perm all (select p rows) perm),
      rw split (collect-IsOrderedBy key kept all ordered),
      rw split (ap (λ f. length (collect_requests f)) e ∙ length-collect_take n all),
    )

scheduled_kept : (row : Request) → (scan_request row).next_execution_at ≡ row.next_execution_at
unfolding scan_request
scheduled_kept row = refl

submitted_kept : (row : Request) → (scan_request row).submitted_at ≡ row.submitted_at
unfolding scan_request
submitted_kept row = refl

-- The requests that the memory store leaves out: those reminded at the very cutoff.
abbrev pub reminded_at : Option Time → Time → Bool
reminded_at none before = false
reminded_at (some t) before = eq_ℤ t before

abbrev pub reminded_then : Time → Request → Bool
reminded_then before row =
    is_pending_review row.status
    && not_after row.submitted_at before
    && reminded_at row.last_reminded_at before

unset_or_not_after-split :
    (o : Option Time) (before : Time)
    → unset_or_not_after o before ≡ (unset_or_before o before || reminded_at o before)
unset_or_not_after-split none before = refl
unset_or_not_after-split (some t) before = ground arith

&&-distrib : (a b c d : Bool) → (a && b && (c || d)) ≡ ((a && b && c) || (a && b && d))
&&-distrib true true c d = refl
&&-distrib true false c d = refl
&&-distrib false b c d = refl

select-cong :
    (p q : Request → Bool)
    → ((r : Request) → p r ≡ q r)
    → (rows : List Request) → select p rows ≡ select q rows
unfolding select
select-cong p q same [] = refl
select-cong p q same (row ∷ rows) = rw (same row, select-cong p q same rows) refl

module _ {D : Type 0} (pool : Pool D) (tables : D → Tables) (db : IsDatabase pool tables) where
  -- Over a pool that behaves as documented, the query of an execution pass fails for another reason
  -- than a missing row, or gives the first of the requests that the memory store takes to be ready:
  -- the earliest scheduled ones, in that order, as many as the limit lets through, which is 25 where
  -- none is asked for.
  pub list_requests_ready_for_execution-IsFirst :
      (before : Time) (limit : ℤ) (d : D)
      → IsFirst
          (λ r. r.next_execution_at)
          (if leb_ℤ limit (pos 0) then pos 25 else limit)
          (collect_requests
            (select (ready_for_execution (pool.bind_time before)) (tables d).requests))
          (list_requests_ready_for_execution pool before limit d).0
  unfolding list_requests_ready_for_execution ready_for_execution
  list_requests_ready_for_execution-IsFirst before limit d =
      Selected-IsFirst (λ r. r.next_execution_at) scheduled_kept
        (ready_for_execution (pool.bind_time before)) (limit_or_default limit) (tables d).requests _
        (db.finds_requests _ d).0

  -- Over a pool that behaves as documented, the query of a reminder pass fails for another reason
  -- than a missing row, or gives the first of the requests that the memory store takes to need a
  -- reminder and of those reminded at the very cutoff: the earliest submitted ones, in that order,
  -- as many as the limit lets through, which is 25 where none is asked for.
  pub list_requests_needing_reminder-IsFirst :
      (before : Time) (limit : ℤ) (d : D)
      → IsFirst
          (λ r. r.submitted_at)
          (if leb_ℤ limit (pos 0) then pos 25 else limit)
          (collect_requests (
            select
              (λ r.
                needs_reminder (pool.bind_time before) r || reminded_then (pool.bind_time before) r)
              (tables d).requests))
          (list_requests_needing_reminder pool before limit d).0
  unfolding list_requests_needing_reminder needs_reminder
  list_requests_needing_reminder-IsFirst before limit d =
      let cutoff = pool.bind_time before in
      let p : Request → Bool = λ row.
        is_pending_review row.status
        && not_after row.submitted_at cutoff
        && unset_or_not_after row.last_reminded_at cutoff in
      rw
        (sym (
          select-cong p (λ r. needs_reminder cutoff r || reminded_then cutoff r)
            (λ r.
              ap (λ b. is_pending_review r.status && not_after r.submitted_at cutoff && b)
                (unset_or_not_after-split r.last_reminded_at cutoff)
              ∙ &&-distrib (is_pending_review r.status) (not_after r.submitted_at cutoff) _ _)
            (tables d).requests))
        (Selected-IsFirst (λ r. r.submitted_at) submitted_kept p (limit_or_default limit)
          (tables d).requests _ (db.finds_requests _ d).0)
