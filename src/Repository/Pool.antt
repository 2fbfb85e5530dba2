-- ===== src/Repository/Pool.antt =====
-- What internal/repository/postgres/store.go uses of pgx's connection pool and of Postgres, which
-- are parameters: the statements that it sends, and the pool that runs them. A statement of the
-- store is here its table, with the `WHERE` condition, the `SET` clause, the key of `ORDER BY ...
-- ASC` and the `LIMIT` of its text as functions and values.
pub mod Database
use review_workflow.Base.{String, Bool, Option, List}
use review_workflow.Base.Int.{ℤ}
use review_workflow.Domain.{Time, Request, AuditEntry, ReviewAction, JobRun, IdempotencyRecord}
use review_workflow.Application.Interfaces.{Op}

-- What `pool.Exec` is given. The row of `insert_idempotency` is put in with `ON CONFLICT DO
-- NOTHING`.
pub data Command : Type 0 where
  insert_request : Request → Command
  insert_audit : AuditEntry → Command
  insert_review : ReviewAction → Command
  insert_job_run : JobRun → Command
  insert_idempotency : IdempotencyRecord → Command
  update_requests : (Request → Bool) → (Request → Request) → Command

-- What `pool.Query` and `pool.QueryRow` are given. A key that is `none` is `NULL`.
pub record Select (A : Type 0) : Type 0 where
  pub where_ : A → Bool
  pub order_by : Option (A → Option Time)
  pub limit : Option ℤ

-- The pool over the states `D` of the database. `exec` gives the number of affected rows; a query
-- gives all its rows, or the error of the query, of a scan or of the end of the iteration.
-- `bind_time` is a time as the driver passes it, which has microseconds only.
pub record Pool (D : Type 0) : Type 0 where
  pub exec : Command → Op D ℤ
  pub query_requests : Select Request → Op D (List Request)
  pub query_audit : Select AuditEntry → Op D (List AuditEntry)
  pub query_idempotency : Select IdempotencyRecord → Op D (List IdempotencyRecord)
  pub bind_time : Time → Time
