-- ===== src/Repository/Postgres/Fulfils.antt =====
-- internal/repository/postgres/store.go against the contract of the interface, over any pool that
-- behaves as documented.
use mathlib.Core.Option as Option
use mathlib.Core.Path.{subst}
use mathlib.Core.Option.{some-injective}
use review_workflow.Base.{
  ◌≡◌, inl, inr, refl, sym, ap, Bool-cases, String, ◌==◌, true, ◌||◌, some, ◌∷◌, if◌then◌else◌,
}
use review_workflow.Base.Int.{ℤ}
use review_workflow.Domain.{
  is_pending_review, is_approved, is_execution_failed, Request, AuditEntry, ReviewAction, JobRun,
  IdempotencyRecord,
}
use review_workflow.Application.Errors.{Result, ok, err}
use review_workflow.Application.Contract.{Contract, Agrees, CreateLaw, IsPending, IsRunnable}
use review_workflow.Repository.Memory.Allowed.{first_test, pending_status, runnable_status}
use review_workflow.Repository.Pool.{
  Pool, insert_request, insert_audit, insert_review, insert_job_run, insert_idempotency,
}
use review_workflow.Repository.Pool.Database.{Tables, IsDatabase, Executed}
use review_workflow.Repository.Postgres.Listed.{Selected-ListLaw}
use review_workflow.Repository.Postgres.{
  limit_or_default, list_requests_needing_reminder, list_requests_ready_for_execution,
  postgres_store, scan_request, bind_request, executed, create_request, get_request, list_requests,
  update_request, append_audit, list_audit, create_review, get_idempotency, create_idempotency,
  append_job_run,
}
use review_workflow.Repository.Postgres.Rows.{IsUnique, find}
use review_workflow.Repository.Postgres.Held.{
  HasKeys, held, held_id, Unchanged, quiet, read, by_id, get-GetLaw,
}
use review_workflow.Repository.Postgres.Update.{update-Law}

scan_request-IsPending :
    (r : Request) → is_pending_review r.status ≡ true → IsPending (scan_request r)
unfolding scan_request
scan_request-IsPending r e = pending_status r.status e

scan_request-IsRunnable :
    (r : Request)
    → (is_approved r.status || is_execution_failed r.status) ≡ true
    → IsRunnable (scan_request r)
unfolding scan_request
scan_request-IsRunnable r e = runnable_status r.status e

module _ {D : Type 0} (pool : Pool D) (tables : D → Tables) where
  module _ (req : Request) where
    abbrev bound : Request
    bound = bind_request pool req

    bound_id : bound.id ≡ req.id
    unfolding bind_request
    bound_id = refl

    bound-Agrees : Agrees (scan_request bound) req
    unfolding scan_request bind_request
    bound-Agrees = record {
      type_kept = refl;
      target_kept = refl;
      justification_kept = refl;
      requester_kept = refl;
      status_kept = refl;
      version_kept = refl;
      attempts_kept = refl;
      reminders_kept = refl;
    }

    held-created :
        (d d' : D)
        → (tables d').requests ≡ bound ∷ (tables d).requests
        → (k : String)
        → held tables d' k ≡ (if req.id == k then some (scan_request bound) else held tables d k)
    unfolding find
    held-created d d' changed k =
        rw (ap (λ rows. Option.map scan_request (find k rows)) changed)
          (elim (Bool-cases (req.id == k)) [
            | inl e ↦ rw (bound_id, e) refl
            | inr e ↦ rw (bound_id, e) refl
          ])

    create-Law :
        (d d' : D) (result : Result ℤ)
        → HasKeys tables d
        → Executed (insert_request bound) (tables d) result (tables d')
        → HasKeys tables d' × CreateLaw (held tables) req d (executed result, d')
    create-Law d d' (err e) v (kind, same) = read tables d d' same v
    create-Law d d' (ok n) v (absent, changed) =
        let changed' : (tables d').requests ≡ bound ∷ (tables d).requests =
          ap (λ t. t.requests) changed in
        (
          subst IsUnique (sym changed') (absent, v),
          (scan_request bound, bound-Agrees, held-created d d' changed'),
        )

  -- The commands for the other tables.
  audit-Unchanged :
      (row : AuditEntry) (d d' : D) (result : Result ℤ)
      → Executed (insert_audit row) (tables d) result (tables d')
      → Unchanged tables d d'
  audit-Unchanged row d d' (err e) h = ap (λ t. t.requests) h.1
  audit-Unchanged row d d' (ok n) h = ap (λ t. t.requests) h

  review-Unchanged :
      (row : ReviewAction) (d d' : D) (result : Result ℤ)
      → Executed (insert_review row) (tables d) result (tables d')
      → Unchanged tables d d'
  review-Unchanged row d d' (err e) h = ap (λ t. t.requests) h.1
  review-Unchanged row d d' (ok n) h = ap (λ t. t.requests) h

  run-Unchanged :
      (row : JobRun) (d d' : D) (result : Result ℤ)
      → Executed (insert_job_run row) (tables d) result (tables d')
      → Unchanged tables d d'
  run-Unchanged row d d' (err e) h = ap (λ t. t.requests) h.1
  run-Unchanged row d d' (ok n) h = ap (λ t. t.requests) h

  key-Unchanged :
      (row : IdempotencyRecord) (d d' : D) (result : Result ℤ)
      → Executed (insert_idempotency row) (tables d) result (tables d')
      → Unchanged tables d d'
  key-Unchanged row d d' (err e) h = ap (λ t. t.requests) h.1
  key-Unchanged row d d' (ok n) (inl (count, same, present)) = ap (λ t. t.requests) same
  key-Unchanged row d d' (ok n) (inr (count, changed, absent)) = ap (λ t. t.requests) changed

  -- The Postgres store fulfils the contract over a pool that behaves as documented: on databases
  -- where no two requests have the same id, with the row of an id, as it is read, as what is held.
  pub postgres_store-Contract :
      IsDatabase pool tables → Contract (postgres_store pool) (HasKeys tables) (held tables)
  unfolding create_request get_request list_requests update_request append_audit list_audit
      create_review get_idempotency create_idempotency append_job_run list_requests_needing_reminder
      list_requests_ready_for_execution
  postgres_store-Contract db = record {
    keyed = λ d v k r e. held_id tables d k r e;
    gets = λ id d v.
        get-GetLaw tables id d (pool.query_requests (by_id tables id) d).0 v
          (db.finds_requests (by_id tables id) d).0;
    get_quiet = λ id d v. read tables d _ (db.finds_requests _ d).1 v;
    updates = λ req expected d v. update-Law pool tables req expected d _ _ v (db.executes _ d);
    creates = λ req d v. create-Law req d _ _ v (db.executes _ d);
    list_quiet = λ filter d v. read tables d _ (db.finds_requests _ d).1 v;
    audit_quiet = λ entry d v.
        let row = record entry { created_at = pool.bind_time entry.created_at } in
        quiet tables d _ (audit-Unchanged row d _ _ (db.executes (insert_audit row) d)) v;
    list_audit_quiet = λ id d v. read tables d _ (db.finds_audit _ d).1 v;
    review_quiet = λ review d v.
        let row = record review { created_at = pool.bind_time review.created_at } in
        quiet tables d _ (review-Unchanged row d _ _ (db.executes (insert_review row) d)) v;
    key_read_quiet = λ scope key d v. read tables d _ (db.finds_idempotency _ d).1 v;
    key_quiet = λ rec d v.
        let row = record rec { created_at = pool.bind_time rec.created_at } in
        quiet tables d _ (key-Unchanged row d _ _ (db.executes (insert_idempotency row) d)) v;
    run_quiet = λ run d v.
        let row = record run { executed_at = pool.bind_time run.executed_at } in
        quiet tables d _ (run-Unchanged row d _ _ (db.executes (insert_job_run row) d)) v;
    reminders_listed = λ before limit d v.
        let (found, same) = db.finds_requests _ d in
        let (v', kept) = read tables d _ same v in
        (
          v',
          kept,
          Selected-ListLaw tables d _ IsPending
              (λ r e. scan_request-IsPending r (first_test _ _ (first_test _ _ e))) _
              (limit_or_default limit) _ v found,
        );
    executions_listed = λ before limit d v.
        let (found, same) = db.finds_requests _ d in
        let (v', kept) = read tables d _ same v in
        (
          v',
          kept,
          Selected-ListLaw tables d _ IsRunnable
              (λ r e. scan_request-IsRunnable r (first_test _ _ e)) _ (limit_or_default limit) _ v
              found,
        );
  }
