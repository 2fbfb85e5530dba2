-- ===== src/Startup.antt =====
-- cmd/server/main.go, up to the start of the worker and of the listener.
-- The libraries are parameters: what `main` is killed with by `log.Fatal` is its error.
pub mod Laws
pub mod Running
use review_workflow.Base.{String, some}
use review_workflow.Application.Errors.{Result, ok, err}
use review_workflow.Application.Executor.{simulated_executor}
use review_workflow.Application.Interfaces.{Op}
use review_workflow.Application.Monad.{Runtime, Service, new_service, call}
use review_workflow.Config.{Parsers, Config, load}
use review_workflow.Jobs.Worker.{Worker, new_worker}
use review_workflow.Platform.Migrations.{Files, run_migrations}
use review_workflow.Platform.Observability.{Otel, Tracing, setup}
use review_workflow.Repository.Pool.{Pool}
use review_workflow.Repository.Postgres.{postgres_store}
use review_workflow.Transport.Http.{Server, new_server}

-- A pool of pgx: the statements of the store, the texts of the migrations, and `Ping`.
pub record Connection (D : Type 0) : Type 0 where
  pub pool : Pool D
  pub exec : String → Op D (Unit {0})
  pub ping : Op D (Unit {0})

pub record Host (F E R D : Type 0) : Type 0 where
  pub getenv : String → String
  pub parsers : Parsers F
  pub otel : Otel E R
  pub new_pool : String → Result (Connection D)
  pub files : Files
  pub runtime : Runtime

-- What `main` goes on to run.
pub record App (F E R D : Type 0) : Type 0 where
  pub tracing : Tracing F E R
  pub service : Service D
  pub worker : Worker D
  pub server : Server D
  pub http_addr : String

module _ {F E R D : Type 0} (host : Host F E R D) where
  unfoldable pub wire : Config F → Tracing F E R → Connection D → App F E R D
  unfolding new_service new_worker new_server
  wire cfg tracing connection =
      let service =
        new_service (postgres_store connection.pool) simulated_executor cfg.default_reviewer_id
          cfg.reminder_after cfg.execution_retry_base cfg.execution_max_attempts host.runtime in
      record {
        tracing = tracing;
        service = service;
        worker = new_worker service cfg.worker_poll_interval cfg.worker_batch_size;
        server = new_server service (some (call connection.ping)) cfg.otel.service_name;
        http_addr = cfg.http_addr;
      }

  -- The rest of `main`, by the outcome of the migrations, of the ping, of the pool, of the tracing
  -- and of the settings.
  abbrev pub migrated :
      Config F → Tracing F E R → Connection D → Result (Unit {0}) × D → Result (App F E R D) × D
  migrated cfg tracing connection (err e, d) = (err e, d)
  migrated cfg tracing connection (ok _, d) = (ok (wire cfg tracing connection), d)

  abbrev pub pinged :
      Config F → Tracing F E R → Connection D → Result (Unit {0}) × D → Result (App F E R D) × D
  pinged cfg tracing connection (err e, d) = (err e, d)
  pinged cfg tracing connection (ok _, d) =
      migrated cfg tracing connection (run_migrations host.files connection.exec d)

  abbrev pub connected :
      Config F → Tracing F E R → Result (Connection D) → D → Result (App F E R D) × D
  connected cfg tracing (err e) d = (err e, d)
  connected cfg tracing (ok connection) d = pinged cfg tracing connection (connection.ping d)

  abbrev pub traced : Config F → Result (Tracing F E R) → D → Result (App F E R D) × D
  traced cfg (err e) d = (err e, d)
  traced cfg (ok tracing) d = connected cfg tracing (host.new_pool cfg.database_url) d

  abbrev pub loaded : Result (Config F) → D → Result (App F E R D) × D
  loaded (err e) d = (err e, d)
  loaded (ok cfg) d = traced cfg (setup host.otel cfg.otel) d

  unfoldable pub start_up : D → Result (App F E R D) × D
  start_up d = loaded (load host.parsers host.getenv) d
