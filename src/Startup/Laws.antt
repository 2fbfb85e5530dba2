-- ===== src/Startup/Laws.antt =====
-- What holds of a server that cmd/server/main.go has started.
use mathlib.Core.Path.{subst}
use review_workflow.Base.{◌≡◌, refl, sym, ap, ◌∙◌, String, arith}
use review_workflow.Base.Int.{pos, ◌<ℤ◌}
use review_workflow.Application.Contract.{Contract}
use review_workflow.Application.Errors.{Result, ok, err}
use review_workflow.Application.Monad.{new_service}
use review_workflow.Config.{Config, load, read}
use review_workflow.Config.Checks.{IsValid, check-IsValid}
use review_workflow.Jobs.Worker.{new_worker}
use review_workflow.Platform.Migrations.{run_migrations}
use review_workflow.Platform.Observability.{Tracing, setup}
use review_workflow.Repository.Pool.Database.{Tables, IsDatabase}
use review_workflow.Repository.Postgres.Held.{HasKeys, held}
use review_workflow.Repository.Postgres.Fulfils.{postgres_store-Contract}
use review_workflow.Startup.{
  Connection, Host, App, wire, migrated, pinged, connected, traced, loaded, start_up,
}
use review_workflow.Transport.Http.{new_server}

abbrev pub value_or : {A : Type 0} → A → Result A → A
value_or a (ok b) = b
value_or a (err e) = a

-- What has come about when the server is started on the database `d` and left it as `d'`.
pub record IsReady {F E R D : Type 0} (host : Host F E R D) (app : App F E R D) (d d' : D)
    : Type 0 where
  pub cfg : Config F
  pub accepted : load host.parsers host.getenv ≡ ok cfg
  pub valid : IsValid host.parsers cfg
  pub set_up : setup host.otel cfg.otel ≡ ok app.tracing
  pub connection : Connection D
  pub opened : host.new_pool cfg.database_url ≡ ok connection
  pub pinged : (connection.ping d).0 ≡ ok tt
  pub migrated : run_migrations host.files connection.exec (connection.ping d).1 ≡ (ok tt, d')
  pub tables : D → Tables
  pub contract : Contract app.service.store (HasKeys tables) (held tables)
  pub bounded : pos 0 <ℤ app.service.execution_max_attempts
  pub batches : pos 0 <ℤ app.worker.batch_size
  pub works_on : app.worker.service ≡ app.service
  pub serves : app.server.service ≡ app.service

module _ {F E R D : Type 0} (host : Host F E R D)
    (documented : (url : String) (c : Connection D)
      → host.new_pool url ≡ ok c
      → (tables : D → Tables) × IsDatabase c.pool tables) where
  wire-IsReady :
      (cfg : Config F) (tracing : Tracing F E R) (c : Connection D) (d d' : D)
      → load host.parsers host.getenv ≡ ok cfg
      → setup host.otel cfg.otel ≡ ok tracing
      → host.new_pool cfg.database_url ≡ ok c
      → (c.ping d).0 ≡ ok tt
      → run_migrations host.files c.exec (c.ping d).1 ≡ (ok tt, d')
      → IsReady host (wire host cfg tracing c) d d'
  unfolding wire load new_service new_worker new_server
  wire-IsReady cfg tracing c d d' accepted set_up opened answered migrated_ =
      let (same, valid) =
        check-IsValid host.parsers host.getenv (read host.parsers host.getenv) cfg accepted in
      let valid' : IsValid host.parsers cfg = subst (IsValid host.parsers) (sym same) valid in
      let (tables, db) = documented cfg.database_url c opened in
      record {
        cfg = cfg;
        accepted = accepted;
        valid = valid';
        set_up = set_up;
        connection = c;
        opened = opened;
        pinged = answered;
        migrated = migrated_;
        tables = tables;
        contract = postgres_store-Contract c.pool tables db;
        bounded = valid'.has_attempts;
        batches = ground arith;
        works_on = refl;
        serves = refl;
      }

  module _ (app : App F E R D) (d d' : D) (cfg : Config F)
      (accepted : load host.parsers host.getenv ≡ ok cfg) where
    module _ (tracing : Tracing F E R) (set_up : setup host.otel cfg.otel ≡ ok tracing)
        (c : Connection D) (opened : host.new_pool cfg.database_url ≡ ok c) where
      migrated-IsReady :
          (x : Result (Unit {0}) × D)
          → (c.ping d).0 ≡ ok tt
          → run_migrations host.files c.exec (c.ping d).1 ≡ x
          → migrated host cfg tracing c x ≡ (ok app, d')
          → IsReady host app d d'
      migrated-IsReady (err e, t) answered run started = cc
      migrated-IsReady (ok u, t) answered run started =
          let made = wire host cfg tracing c in
          let same : made ≡ app = ap (λ y. value_or made y.0) started in
          let state : t ≡ d' = ap (λ y. y.1) started in
          subst (λ a. IsReady host a d d') same
            (wire-IsReady cfg tracing c d d' accepted set_up opened answered
              (run ∙ ap (λ z. (ok tt, z)) state))

      pinged-IsReady :
          (x : Result (Unit {0}) × D)
          → c.ping d ≡ x
          → pinged host cfg tracing c x ≡ (ok app, d')
          → IsReady host app d d'
      pinged-IsReady (err e, t) ping started = cc
      pinged-IsReady (ok u, t) ping started =
          migrated-IsReady _ (ap (λ y. y.0) ping)
            (ap (λ y. run_migrations host.files c.exec y.1) ping) started

    connected-IsReady :
        (tracing : Tracing F E R) (x : Result (Connection D))
        → setup host.otel cfg.otel ≡ ok tracing
        → host.new_pool cfg.database_url ≡ x
        → connected host cfg tracing x d ≡ (ok app, d')
        → IsReady host app d d'
    connected-IsReady tracing (err e) set_up opened started = cc
    connected-IsReady tracing (ok c) set_up opened started =
        pinged-IsReady tracing set_up c opened (c.ping d) refl started

    traced-IsReady :
        (x : Result (Tracing F E R))
        → setup host.otel cfg.otel ≡ x
        → traced host cfg x d ≡ (ok app, d')
        → IsReady host app d d'
    traced-IsReady (err e) set_up started = cc
    traced-IsReady (ok tracing) set_up started =
        connected-IsReady tracing (host.new_pool cfg.database_url) set_up refl started

  loaded-IsReady :
      (app : App F E R D) (d d' : D) (x : Result (Config F))
      → load host.parsers host.getenv ≡ x
      → loaded host x d ≡ (ok app, d')
      → IsReady host app d d'
  loaded-IsReady app d d' (err e) accepted started = cc
  loaded-IsReady app d d' (ok cfg) accepted started =
      traced-IsReady app d d' cfg accepted (setup host.otel cfg.otel) refl started

  -- A server that `main` starts, where the pools behave as documented, has accepted settings and
  -- its tracing set up, the pool for its database has answered a ping, and the migrations have run
  -- to the end after that; the store of its service fulfils the contract, the bound on attempts and
  -- the size of the worker's batches are positive, and worker and handlers share that service.
  pub start_up-IsReady :
      (app : App F E R D) (d d' : D) → start_up host d ≡ (ok app, d') → IsReady host app d d'
  unfolding start_up
  start_up-IsReady app d d' = loaded-IsReady app d d' (load host.parsers host.getenv) refl
