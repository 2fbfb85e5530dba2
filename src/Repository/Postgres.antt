-- ===== src/Repository/Postgres.antt =====
-- internal/repository/postgres/store.go, over any pool. Tracing is left out. Every statement binds
-- the times among its arguments.
pub mod Rows
pub mod Held
pub mod Update
pub mod Keys
pub mod Listed
pub mod Fulfils
pub mod Laws
pub mod Due
use mathlib.Core.Option.{Option}
use mathlib.Core.Option as Option
use review_workflow.Base.{
  Bool, true, false, ◌&&◌, ◌||◌, String, ◌==◌, none, some, List, [], ◌∷◌, trim_space, if◌then◌else◌,
}
use review_workflow.Base.Int.{ℤ, pos, eq_ℤ, leb_ℤ}
use review_workflow.Domain.{
  Time, status_text, is_pending_review, is_approved, is_execution_failed, Request, AuditEntry,
  ReviewAction, JobRun, IdempotencyRecord, RequestFilter,
}
use review_workflow.Application.Errors.{Result, ok, err, err_not_found, err_conflict}
use review_workflow.Application.Interfaces.{Op, Store}
use review_workflow.Repository.Memory.{not_after}
use review_workflow.Repository.Pool.{
  Pool, Command, insert_request, insert_audit, insert_review, insert_job_run, insert_idempotency,
  update_requests, Select,
}

-- `scanRequest` on a row that has been read.
unfoldable pub scan_request : Request → Request
scan_request row = record row {
  assigned_reviewer_id = trim_space row.assigned_reviewer_id;
  last_execution_error = trim_space row.last_execution_error;
}

unfoldable pub collect_requests : List Request → List Request
unfolding scan_request
collect_requests [] = []
collect_requests (row ∷ rows) = scan_request row ∷ collect_requests rows

-- `_, err := pool.Exec(...); return err`
abbrev pub executed : Result ℤ → Result (Unit {0})
executed (ok _) = ok tt
executed (err e) = err e

-- The checks on `err` and on `tag.RowsAffected()`.
abbrev pub affected : Result ℤ → Result (Unit {0})
affected (ok n) = if eq_ℤ n (pos 0) then err err_conflict else ok tt
affected (err e) = err e

-- `QueryRow(...).Scan(...)`, which fails with `pgx.ErrNoRows` where there is no row.
abbrev pub first_row : {A : Type 0} → Result (List A) → Result A
first_row (ok []) = err err_not_found
first_row (ok (row ∷ _)) = ok row
first_row (err e) = err e

abbrev pub map_result : {A B : Type 0} → (A → B) → Result A → Result B
map_result f (ok a) = ok (f a)
map_result f (err e) = err e

-- A method that turns the outcome of one statement into its own.
abbrev pub after : {D A B : Type 0} → (Result A → Result B) → Op D A → Op D B
after f op d = let (r, d') = op d in (f r, d')

-- `if limit <= 0 { limit = 25 }`
abbrev pub limit_or_default : ℤ → ℤ
limit_or_default limit = if leb_ℤ limit (pos 0) then pos 25 else limit

-- `t <= $n`, which a `NULL` does not satisfy, and `t IS NULL OR t <= $n`.
abbrev pub unset_or_not_after : Option Time → Time → Bool
unset_or_not_after none before = true
unset_or_not_after (some t) before = leb_ℤ t before

module _ {D : Type 0} (pool : Pool D) where
  unfoldable pub bind_request : Request → Request
  bind_request req = record req {
    created_at = pool.bind_time req.created_at;
    updated_at = pool.bind_time req.updated_at;
    submitted_at = Option.map pool.bind_time req.submitted_at;
    approved_at = Option.map pool.bind_time req.approved_at;
    reviewed_at = Option.map pool.bind_time req.reviewed_at;
    executed_at = Option.map pool.bind_time req.executed_at;
    last_reminded_at = Option.map pool.bind_time req.last_reminded_at;
    next_execution_at = Option.map pool.bind_time req.next_execution_at;
  }

  unfoldable pub create_request : Request → Op D (Unit {0})
  unfolding bind_request
  create_request req = after executed (pool.exec (insert_request (bind_request req)))

  unfoldable pub get_request : String → Op D Request
  unfolding scan_request
  get_request id =
      after (λ r. map_result scan_request (first_row r))
        (pool.query_requests
          (record { where_ = λ row. row.id == id; order_by = none; limit = none }))

  unfoldable pub list_requests : RequestFilter → Op D (List Request)
  unfolding collect_requests
  list_requests filter = after (map_result collect_requests) (
      pool.query_requests (record {
        where_ = λ row.
            (filter.requester_id == "" || row.requester_id == filter.requester_id)
            && (filter.reviewer_id == "" || row.assigned_reviewer_id == filter.reviewer_id)
            && (status_text filter.status == ""
                || status_text row.status == status_text filter.status);
        order_by = some (λ row. some row.created_at);
        limit = none;
      }))

  -- The `SET` clause leaves `id` and `created_at`.
  unfoldable pub set_request : Request → Request → Request
  unfolding bind_request
  set_request req row = record (bind_request req) { id = row.id; created_at = row.created_at }

  unfoldable pub update_request : Request → ℤ → Op D (Unit {0})
  unfolding set_request
  update_request req expected = after affected (
      pool.exec
        (update_requests (λ row. row.id == req.id && eq_ℤ row.version expected) (set_request req)))

  unfoldable pub append_audit : AuditEntry → Op D (Unit {0})
  append_audit entry =
      after executed
        (pool.exec (insert_audit (record entry { created_at = pool.bind_time entry.created_at })))

  unfoldable pub list_audit : String → Op D (List AuditEntry)
  list_audit request_id = pool.query_audit (record {
    where_ = λ row. row.request_id == request_id;
    order_by = some (λ row. some row.created_at);
    limit = none;
  })

  unfoldable pub create_review : ReviewAction → Op D (Unit {0})
  create_review review =
      after executed (
        pool.exec (insert_review (record review { created_at = pool.bind_time review.created_at })))

  unfoldable pub get_idempotency : String → String → Op D IdempotencyRecord
  get_idempotency scope key = after first_row (
      pool.query_idempotency (record {
        where_ = λ row. row.scope == scope && row.key == key;
        order_by = none;
        limit = none;
      }))

  unfoldable pub create_idempotency : IdempotencyRecord → Op D (Unit {0})
  create_idempotency rec =
      after affected
        (pool.exec (insert_idempotency (record rec { created_at = pool.bind_time rec.created_at })))

  unfoldable pub list_requests_needing_reminder : Time → ℤ → Op D (List Request)
  unfolding collect_requests
  list_requests_needing_reminder before limit = after (map_result collect_requests) (
      pool.query_requests (record {
        where_ = λ row.
            is_pending_review row.status
            && not_after row.submitted_at (pool.bind_time before)
            && unset_or_not_after row.last_reminded_at (pool.bind_time before);
        order_by = some (λ row. row.submitted_at);
        limit = some (limit_or_default limit);
      }))

  unfoldable pub list_requests_ready_for_execution : Time → ℤ → Op D (List Request)
  unfolding collect_requests
  list_requests_ready_for_execution before limit = after (map_result collect_requests) (
      pool.query_requests (record {
        where_ = λ row.
            (is_approved row.status || is_execution_failed row.status)
            && not_after row.next_execution_at (pool.bind_time before);
        order_by = some (λ row. row.next_execution_at);
        limit = some (limit_or_default limit);
      }))

  unfoldable pub append_job_run : JobRun → Op D (Unit {0})
  append_job_run run =
      after executed
        (pool.exec (insert_job_run (record run { executed_at = pool.bind_time run.executed_at })))

  abbrev pub postgres_store : Store D
  postgres_store = record {
    create_request = create_request;
    get_request = get_request;
    list_requests = list_requests;
    update_request = update_request;
    append_audit = append_audit;
    list_audit = list_audit;
    create_review = create_review;
    get_idempotency = get_idempotency;
    create_idempotency = create_idempotency;
    list_requests_needing_reminder = list_requests_needing_reminder;
    list_requests_ready_for_execution = list_requests_ready_for_execution;
    append_job_run = append_job_run;
  }
