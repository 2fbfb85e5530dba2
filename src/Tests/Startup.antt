-- ===== src/Tests/Startup.antt =====
-- The theorem on cmd/server/main.go at a start on an empty database.
use mathlib.Core.Path.{subst}
use review_workflow.Base.{◌≡◌, refl, false, ◌==◌, String, none, [], ap, trim_space, if◌then◌else◌}
use review_workflow.Base.Int.{ℤ, pos}
use review_workflow.Application.Errors.{ok}
use review_workflow.Config.{
  Parsers, get_env, must_int, must_bool, must_duration, must_float, load, read, check,
}
use review_workflow.Platform.Migrations.{
  run_migrations, apply_listed, apply_all, sort_strings, migration_names,
}
use review_workflow.Platform.Observability.{setup, disabled}
use review_workflow.Repository.Pool.Database.{Tables, IsDatabase}
use review_workflow.Startup.{Connection, Host, App, wire, start_up}
use review_workflow.Startup.Laws.{value_or, IsReady, start_up-IsReady}
use review_workflow.Tests.Database.{pool, as_tables, pool-IsDatabase}
use review_workflow.Tests.Stores.{empty}
use review_workflow.Tests.{runtime}

abbrev parsers : Parsers ℤ
parsers = record {
  parse_duration = λ _. none;
  atoi = λ _. none;
  parse_bool = λ _. none;
  parse_float = λ _. none;
  one = pos 1;
  is_negative = λ _. false;
  exceeds_one = λ _. false;
}

abbrev connection : Connection Tables
connection = record { pool = pool; exec = λ sql d. (ok tt, d); ping = λ d. (ok tt, d) }

abbrev host : Host ℤ (Unit {0}) (Unit {0}) Tables
host = record {
  getenv = λ key. if key == "DATABASE_URL" then "postgres://db" else "";
  parsers = parsers;
  otel = record { new_exporter = λ _. ok tt; merge_resource = λ _. ok tt };
  new_pool = λ _. ok connection;
  files = record { read_dir = ok []; read_file = λ name. ok name };
  runtime = runtime;
}

abbrev pub app : App ℤ (Unit {0}) (Unit {0}) Tables
app = wire host (read parsers host.getenv) disabled connection

started : start_up host empty ≡ (ok app, empty)
unfolding start_up load read check get_env must_int must_bool must_duration must_float setup
    run_migrations apply_listed apply_all sort_strings migration_names trim_space wire
started = refl

documented :
    (url : String) (c : Connection Tables)
    → host.new_pool url ≡ ok c
    → (tables : Tables → Tables) × IsDatabase c.pool tables
documented url c opened = (
  as_tables,
  subst (λ x. IsDatabase x.pool as_tables) (ap (value_or connection) opened) pool-IsDatabase,
)

start_up-IsReady_example : IsReady host app empty empty
start_up-IsReady_example = start_up-IsReady host documented app empty empty started
