-- ===== src/Tests/Running.antt =====
-- The theorems on a server among others: a rejection comes too late, for another server approves the
-- request meanwhile.
use review_workflow.Base.{
  ◌≡◌, inl, inr, refl, none, some, Option, [], ◌∷◌, trim_space, trim_left, trim_right, is_space,
  ◌==◌, if◌then◌else◌,
}
use review_workflow.Base.Int.{pos, incr}
use review_workflow.Domain.{Request, pending_review, role_of, validate_actor}
use review_workflow.Application.Review.{approve_request, reject_request}
use review_workflow.Application.Contract.Among.History.{Transitions}
use review_workflow.Application.Contract.Among.Approval.{WasApproved}
use review_workflow.Jobs.Worker.{tick, cancelled}
use review_workflow.Repository.Memory.{select}
use review_workflow.Repository.Postgres
use review_workflow.Repository.Postgres.Held.{HasKeys, held}
use review_workflow.Repository.Pool.Database.{update_where}
use review_workflow.Startup.Running.{Job, serve, work, perform, perform-Evolves, perform-approved}
use review_workflow.Transport.Http.{
  HttpRequest, reject_one, handle, handle_reject_request, answer, actor_from_request, bind,
  named_actor,
}
use review_workflow.Tests.{zero_time, with_status}
use review_workflow.Tests.Database.{as_tables}
use review_workflow.Tests.Http.{request_by, headers}
use review_workflow.Tests.Sharing.{
  documented, Acting, disturbed, disturbed-IsShared, disturbed-IsLawfulAlong,
}
use review_workflow.Tests.Stores.{postgres_service, waiting, filled, filled-HasKeys}

abbrev or_waiting : Option Request → Request
or_waiting none = with_status pending_review
or_waiting (some r) = r

abbrev first_due : Request
first_due = or_waiting (held as_tables filled "req_00")

perform-Evolves_example :
    let after =
      perform postgres_service documented zero_time none "review-workflow"
        (pos 1)
        (pos 25)
        Acting
        (work (tick ∷ cancelled ∷ []))
        (disturbed filled) in
    (q : Request) × (held as_tables after.state.state "req_00" ≡ some q)
    × Transitions Acting first_due q
    × (q.requester_id ≡ first_due.requester_id)
unfolding Postgres.Rows.find Postgres.scan_request
perform-Evolves_example =
    perform-Evolves postgres_service documented zero_time none "review-workflow" (pos 1) (pos 25)
      Acting (work (tick ∷ cancelled ∷ [])) (disturbed filled) "req_00" first_due tt (inr refl)
      (disturbed-IsShared filled filled-HasKeys) (disturbed-IsLawfulAlong filled filled-HasKeys)
      refl

abbrev keyed_request : HttpRequest
keyed_request = record (request_by "reviewer-1") {
  header = λ name. if name == "Idempotency-Key" then "k" else headers "reviewer-1" name;
}

abbrev rejecting : Job
rejecting = serve keyed_request reject_one

abbrev waited : Request
waited = or_waiting (held as_tables waiting "req_00")

abbrev afterwards : Request
afterwards = or_waiting (
    held as_tables
      (perform postgres_service documented zero_time none "review-workflow" (pos 1) (pos 25) Acting
        rejecting (disturbed waiting)).state.state
      "req_00")

perform-approved_example :
    WasApproved
      (HasKeys as_tables)
      (held as_tables)
      Acting
      (disturbed waiting).state
      (perform postgres_service documented zero_time none "review-workflow"
        (pos 1)
        (pos 25)
        Acting
        rejecting
        (disturbed waiting)).state
      "req_00"
      waited
unfolding handle handle_reject_request answer actor_from_request bind named_actor role_of
    validate_actor reject_request approve_request Postgres.get_request Postgres.get_idempotency
    Postgres.create_idempotency Postgres.update_request Postgres.create_review Postgres.append_audit
    Postgres.Rows.find Postgres.scan_request select update_where trim_space trim_left trim_right
    is_space incr
perform-approved_example =
    perform-approved postgres_service documented zero_time none "review-workflow" (pos 1) (pos 25)
      Acting rejecting (disturbed waiting) "req_00" waited afterwards tt (inl refl)
      (disturbed-IsShared waiting (tt, tt)) (disturbed-IsLawfulAlong waiting (tt, tt)) refl refl
      refl refl
