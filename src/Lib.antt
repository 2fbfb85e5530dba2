-- ===== src/Lib.antt =====
-- Verification library of the review-workflow service.
--
-- The service takes requests for access through a review: an employee drafts and submits a request,
-- the assigned reviewer or an admin approves or rejects it, and a background worker executes the
-- approved ones, with retries, and reminds of the pending ones. Every change is written with an
-- optimistic version check and an audit entry; submissions and reviews carry an idempotency key.
--
-- Files and code:
--   Base            numbers, texts, lists and maps that the others share. Base/Int has Go's 64-bit
--                   `int` and `time.Duration`, Base/Text and Base/Trim `strings`, Base/Maps `map`.
--   Domain          internal/domain/models.go: `Request`, `Actor`, ..., `ValidateActor`. Domain/Id
--                   is `NewID`.
--   Application     internal/application. Errors is errors.go, Interfaces is interfaces.go (the
--                   `Store` as a record of operations on a state), Executor is executor.go. The
--                   methods of `Service` in service.go are in Requests (`CreateDraft`, `GetRequest`,
--                   `ListRequests`, `ListAudit`, `SubmitRequest`), Review (`ApproveRequest`,
--                   `RejectRequest`) and Execution (`RecordExecutionResult`, `ProcessDueReminders`,
--                   `ProcessDueExecutions`); Helpers has their helpers, and Authority says who may
--                   decide on a request. Monad has the `Service` struct and the actions that the
--                   methods are written in.
--                   Application/Contract says what the service may expect of any `Store`, and what
--                   its methods then do to the requests that the store holds, for a client that is
--                   alone (Alone, Calls, Passes) and for one that shares the store (Among).
--                   Protocol has what the rules for both need.
--   Repository      internal/repository. Memory is memory/store.go. Postgres is postgres/store.go,
--                   over the statements and the pool of Repository/Pool; Pool/Database states the
--                   documented behaviour of the pool. Memory/Fulfils and Postgres/Fulfils relate
--                   the two stores to Application/Contract.
--   Platform        internal/platform. Migrations is sqlutil/migrations.go,
--                   Observability is observability/otel.go.
--   Startup         cmd/server/main.go, up to the start of the worker and of the listener. Running is
--                   about answers and the worker of a server among others on one store.
--   Jobs            internal/jobs. Worker is worker.go, and Worker/Among its `Start` beside others.
--   Transport       internal/transport. Http is http/server.go: the actor that the headers name, one
--                   handler for each endpoint, and the status of an error. Answers and Statuses are
--                   about what the handlers answer. Routes is `Routes`, with `registerUI` of
--                   http/ui.go. Change and Among are about the requests behind the handlers.
--   Config          internal/config/config.go, with Config/Checks on the checks of `Load`.
--   Workflow        the abstract workflow of README.md and docs/architecture.md: which transitions a
--                   request has, with their conditions and audit entries. Workflow/Submit, Drafts,
--                   Review, Execution and Passes relate one method of the service each to it, over
--                   the memory store. Sound and Consistent hold the invariant, Runs the sequences of
--                   calls, and Locking the version check between a read and its update. Passes has the
--                   outcome of a pass and what repeated passes come to.
--   Tests           a run of the service, and the theorems at concrete data. Tests/Database is a
--                   database in memory that the Postgres store runs on.
--
-- How they interact: a method of `Service` is an action that threads the store's state and counts
-- the readings of the clock and of the random source, so every reading may differ. A method calls
-- the store through the record `Store`, and what it wrote before an error stays written. `Worker`
-- calls the two passes of the service, and an HTTP handler one method. A call is one step of a run;
-- Workflow/Locking also lets other calls take effect between the read of a request and its update,
-- and Application/Contract/Among lets others take steps before each call of the store.
--
-- Parameters, for what is not in the repository: the readings of the clock and of the random
-- source, the SHA-256 digest, strconv's quotation, Go's zero time, the executor, and of Gin the
-- headers, the query, the path parameter and the outcome of binding a body; for the settings the
-- environment, the parsers and the floating-point numbers; of pgx the pool, with the documented
-- behaviour of Postgres on the statements of the store as the hypothesis `IsDatabase`; and the
-- embedded files of the migrations and of the user interface, the exporter and the resource of
-- OpenTelemetry.
--
-- Bounds: an `int` and a `time.Duration` wrap around at 64 bits. A `time.Time` is a whole number of
-- nanoseconds without a bound. A map is an association list, and the theorems hold for every order
-- of it, so for every order in which `range` may visit it; equal times sort in an order that
-- `sort.Slice` may give. No definition takes fuel: the loops go through finite lists, and the one of
-- the worker's `Start` through the events that its `select` receives: it waits when these are used up.
--
-- Not modelled: the end of `main`, which waits for a signal and then calls `Shutdown` of net/http,
-- `Close` of pgxpool and the shutdown of OpenTelemetry; the registration of the OpenTelemetry provider
-- and the spans, and Gin's matching of a path against the registered routes. `IsDatabase` takes a
-- statement that fails to have had no effect; a connection that is lost after the commit is left out.
-- The comparisons of a sampling ratio are parameters, and with NaN both are false. Contexts, so
-- cancellation within a call, are left out, and the width of a column: a value that does not fit is
-- a statement that fails.
pub mod Base
pub mod Domain
pub mod Application
pub mod Platform
pub mod Repository
pub mod Jobs
pub mod Transport
pub mod Config
pub mod Startup
pub mod Workflow
mod Tests
