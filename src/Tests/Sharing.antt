-- ===== src/Tests/Sharing.antt =====
-- The theorems on a client that shares its store with others: while a reviewer decides on a request,
-- another call approves it.
use review_workflow.Base.{none, ◌≡◌, ◌⊎◌, inl, inr, true, refl, [], ◌∷◌, arith, trim_space}
use review_workflow.Base.Int.{pos, incr}
use review_workflow.Domain.{Actor}
use review_workflow.Application.Helpers.{system_actor}
use review_workflow.Application.Errors.{err, err_conflict}
use review_workflow.Application.Monad.{World}
use review_workflow.Application.Review.{approve_request, reject_request}
use review_workflow.Application.Contract.{Contract}
use review_workflow.Application.Contract.Among.{Shared, IsShared, OneChange, among_others}
use review_workflow.Application.Contract.Among.Passes.{Led}
use review_workflow.Jobs.Worker.{tick, cancelled, start}
use review_workflow.Jobs.Worker.Among.{WorkerChange, worker, start-Led}
use review_workflow.Application.Contract.Among.Lawful.{step_of, calls-IsLawful}
use review_workflow.Application.Contract.Among.History.{
  IsLawfullyShared, IsLawful-IsPolite, IsLawfulAlong, IsLawfullyShared-IsLawfulAlong,
}
use review_workflow.Repository.Memory.{select}
use review_workflow.Repository.Postgres
use review_workflow.Repository.Pool.Database.{Tables, update_where}
use review_workflow.Repository.Postgres.Held.{HasKeys, held}
use review_workflow.Repository.Postgres.Fulfils.{postgres_store-Contract}
use review_workflow.Transport.Http.{Server, approve_one, handle}
use review_workflow.Transport.Http.Change.{EndpointChange}
use review_workflow.Transport.Http.Among.{server, handle-OneChange}
use review_workflow.Tests.Http.{request_by}
use review_workflow.Tests.{zero_time, rex}
use review_workflow.Tests.Database.{pool, as_tables, pool-IsDatabase}
use review_workflow.Tests.Stores.{postgres_service, waiting, filled, filled-HasKeys}

pub documented : Contract postgres_service.store (HasKeys as_tables) (held as_tables)
documented = postgres_store-Contract pool as_tables pool-IsDatabase

-- The reviewer, and the worker.
abbrev pub Acting : Actor → Type 0
Acting actor = (actor ≡ rex) ⊎ (actor ≡ system_actor)

abbrev pub approval : Tables → Tables
approval =
    step_of postgres_service zero_time documented Acting 0 0
      (approve_request postgres_service zero_time rex "req_00" "k'" "ok")

-- The approval comes after the client's first call of the store.
abbrev pub disturbed : Tables → World (Shared Tables)
disturbed tables = record {
  state = record { state = tables; others = [] ∷ (approval ∷ []) ∷ [] };
  ticks = 0;
  draws = 0;
}

disturbed-IsLawful :
    (tables : Tables)
    → HasKeys as_tables tables
    → IsLawfullyShared (HasKeys as_tables) (held as_tables) Acting (disturbed tables).state
disturbed-IsLawful tables v = (
  v,
  (
    tt,
    (
      (
        (calls-IsLawful postgres_service zero_time documented Acting 0 0 rex "req_00" "k'" "ok" true
            (pos 5) (inl refl) (inr refl)).1,
        tt,
      ),
      tt,
    ),
  ),
)

pub disturbed-IsShared :
    (tables : Tables)
    → HasKeys as_tables tables
    → IsShared (HasKeys as_tables) (held as_tables) (disturbed tables).state
disturbed-IsShared tables v =
    let (_, (_, ((lawful, _), _))) = disturbed-IsLawful tables v in
    (
      v,
      (
        tt,
        ((IsLawful-IsPolite (HasKeys as_tables) (held as_tables) Acting approval lawful, tt), tt),
      ),
      omega arith,
    )

pub disturbed-IsLawfulAlong :
    (tables : Tables)
    → HasKeys as_tables tables
    → IsLawfulAlong (HasKeys as_tables) (held as_tables) Acting (disturbed tables).state
disturbed-IsLawfulAlong tables v =
    IsLawfullyShared-IsLawfulAlong (HasKeys as_tables) (held as_tables) Acting
      (disturbed tables).state (disturbed-IsLawful tables v)

abbrev sharing_server : Server (Shared Tables)
sharing_server = server postgres_service documented none "review-workflow"

handle-OneChange_example :
    OneChange
      (HasKeys as_tables)
      (held as_tables)
      (EndpointChange (request_by "reviewer-1") approve_one)
      (disturbed waiting).state
      (handle sharing_server zero_time
        (request_by "reviewer-1")
        approve_one
        (disturbed waiting)).1.state
handle-OneChange_example =
    handle-OneChange postgres_service documented none "review-workflow" zero_time
      (request_by "reviewer-1") approve_one (disturbed waiting) tt
      (disturbed-IsShared waiting (tt, tt))

start-Led_example :
    Led
      (HasKeys as_tables)
      (held as_tables)
      (WorkerChange postgres_service documented)
      (disturbed filled).state
      (start
        (worker postgres_service documented (pos 1) (pos 25))
        (tick ∷ cancelled ∷ [])
        (disturbed filled)).1.state
start-Led_example =
    start-Led postgres_service documented (pos 1) (pos 25) (tick ∷ cancelled ∷ [])
      (disturbed filled) (disturbed-IsShared filled filled-HasKeys)

-- The rejection finds that the request has been approved meanwhile.
rejected_too_late :
    (reject_request
      (among_others postgres_service)
      zero_time
      rex
      "req_00"
      "k"
      "fine"
      (disturbed waiting)).0
    ≡ err err_conflict
unfolding reject_request approve_request Postgres.get_request Postgres.get_idempotency
    Postgres.create_idempotency Postgres.update_request Postgres.create_review Postgres.append_audit
    select update_where trim_space incr
rejected_too_late = refl
