-- ===== src/Repository/Pool/Database.antt =====
-- The documented behaviour of Postgres and pgx that the store relies on, for the schema of
-- db/migrations. A statement may always fail, and then changes nothing.
use mathlib.Core.List.{Perm}
use review_workflow.Base.{
  ◌≡◌, ◌≢◌, ◌⊎◌, Bool, Option, none, some, List, [], ◌∷◌, length, take, All, Any, if◌then◌else◌,
}
use review_workflow.Base.Int.{ℤ, pos, pos_part, ◌≤ℤ◌}
use review_workflow.Domain.{Time, Request, AuditEntry, ReviewAction, JobRun, IdempotencyRecord}
use review_workflow.Application.Errors.{other, Result, ok, err}
use review_workflow.Repository.Memory.{select}
use review_workflow.Repository.Pool.{
  Pool, Command, insert_request, insert_audit, insert_review, insert_job_run, insert_idempotency,
  update_requests, Select,
}

-- The rows of the tables, in an order that no result depends on.
pub record Tables : Type 0 where
  pub requests : List Request
  pub audit : List AuditEntry
  pub reviews : List ReviewAction
  pub idempotency : List IdempotencyRecord
  pub job_runs : List JobRun

-- `UPDATE ... SET set WHERE p`
unfoldable pub update_where : (Request → Bool) → (Request → Request) → List Request → List Request
update_where p set [] = []
update_where p set (row ∷ rows) = (if p row then set row else row) ∷ update_where p set rows

abbrev pub SameKey : IdempotencyRecord → IdempotencyRecord → Type 0
SameKey a b = (a.scope ≡ b.scope) × (a.key ≡ b.key)

-- What becomes of the tables `t` by a command, with its result.
abbrev pub Executed : Command → Tables → Result ℤ → Tables → Type 0
Executed c t (err e) t' = (e.kind ≡ other) × (t' ≡ t)
Executed (insert_request row) t (ok n) t' =
    All (λ q. q.id ≢ row.id) t.requests × (t' ≡ record t { requests = row ∷ t.requests })
Executed (insert_audit row) t (ok n) t' = t' ≡ record t { audit = row ∷ t.audit }
Executed (insert_review row) t (ok n) t' = t' ≡ record t { reviews = row ∷ t.reviews }
Executed (insert_job_run row) t (ok n) t' = t' ≡ record t { job_runs = row ∷ t.job_runs }
Executed (insert_idempotency row) t (ok n) t' =
    ((n ≡ pos 0) × (t' ≡ t) × Any (SameKey row) t.idempotency)
    ⊎ ((n ≡ pos 1)
        × (t' ≡ record t { idempotency = row ∷ t.idempotency })
        × All (λ q. SameKey row q → ⊥) t.idempotency)
Executed (update_requests p set) t (ok n) t' =
    (n ≡ pos (length (select p t.requests)))
    × (t' ≡ record t { requests = update_where p set t.requests })

-- The order of `ORDER BY ... ASC`, where `NULL` comes last.
abbrev pub NotLater : Option Time → Option Time → Type 0
NotLater a none = Unit
NotLater none (some b) = ⊥
NotLater (some a) (some b) = a ≤ℤ b

abbrev pub IsOrderedBy : {A : Type 0} → (A → Option Time) → List A → Type 0
IsOrderedBy key [] = Unit
IsOrderedBy key (x ∷ xs) = All (λ y. NotLater (key x) (key y)) xs × IsOrderedBy key xs

abbrev pub IsOrdered : {A : Type 0} → Option (A → Option Time) → List A → Type 0
IsOrdered none xs = Unit
IsOrdered (some key) xs = IsOrderedBy key xs

abbrev pub limited : {A : Type 0} → Option ℤ → List A → List A
limited none xs = xs
limited (some n) xs = take (pos_part n) xs

-- What a query finds among the rows of its table.
abbrev pub Selected : {A : Type 0} → Select A → List A → Result (List A) → Type 0
Selected q rows (err e) = e.kind ≡ other
Selected {A} q rows (ok found) =
    (all : List A) × Perm all (select q.where_ rows)
    × IsOrdered q.order_by all
    × (found ≡ limited q.limit all)

pub record IsDatabase {D : Type 0} (pool : Pool D) (tables : D → Tables) : Type 0 where
  pub executes :
      (c : Command) (d : D)
      → let (result, d') = pool.exec c d in Executed c (tables d) result (tables d')
  pub finds_requests :
      (q : Select Request) (d : D)
      → let (result, d') = pool.query_requests q d in
        Selected q (tables d).requests result × (tables d' ≡ tables d)
  pub finds_audit :
      (q : Select AuditEntry) (d : D)
      → let (result, d') = pool.query_audit q d in
        Selected q (tables d).audit result × (tables d' ≡ tables d)
  pub finds_idempotency :
      (q : Select IdempotencyRecord) (d : D)
      → let (result, d') = pool.query_idempotency q d in
        Selected q (tables d).idempotency result × (tables d' ≡ tables d)
