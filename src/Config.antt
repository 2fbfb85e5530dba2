-- ===== src/Config.antt =====
-- internal/config/config.go: the settings that the server is started with. The environment, the
-- parsers of strconv and time, and the floating-point numbers with their two comparisons are
-- parameters.
pub mod Checks
use review_workflow.Base.{
  Bool, true, false, ◌&&◌, ◌||◌, String, ◌==◌, Option, none, some, trim_space, if◌then◌else◌,
}
use review_workflow.Base.Int.{ℤ, pos, leb_ℤ}
use review_workflow.Domain.{Duration}
use review_workflow.Application.Errors.{Error, other, Result, ok, err}

-- A parser that fails gives `none`.
pub record Parsers (F : Type 0) : Type 0 where
  pub parse_duration : String → Option Duration
  pub atoi : String → Option ℤ
  pub parse_bool : String → Option Bool
  pub parse_float : String → Option F
  pub one : F
  -- `ratio < 0` and `ratio > 1`: of NaN, which `ParseFloat` accepts, both are false.
  pub is_negative : F → Bool
  pub exceeds_one : F → Bool

pub record OtelConfig (F : Type 0) : Type 0 where
  pub enabled : Bool
  pub service_name : String
  pub exporter_endpoint : String
  pub insecure : Bool
  pub sample_ratio : F

pub record Config (F : Type 0) : Type 0 where
  pub http_addr : String
  pub database_url : String
  pub default_reviewer_id : String
  pub reminder_after : Duration
  pub execution_retry_base : Duration
  pub execution_max_attempts : ℤ
  pub worker_poll_interval : Duration
  pub worker_batch_size : ℤ
  pub otel : OtelConfig F

-- `errors.New`, and `fmt.Errorf` without `%w`.
abbrev pub refuse : {A : Type 0} → String → Result A
refuse message = err (record { kind = other; message = message })

unfoldable pub get_env : (String → String) → String → String → String
get_env getenv key fallback = if getenv key == "" then fallback else getenv key

-- A value that is unset or cannot be parsed is the fallback.
abbrev pub parsed_or : {A : Type 0} → (String → Option A) → String → A → A
parsed_or parse value fallback =
    if value == "" then fallback else elim (parse value) [ none ↦ fallback | some a ↦ a ]

module _ {F : Type 0} (parsers : Parsers F) (getenv : String → String) where
  unfoldable pub must_duration : String → Duration → Duration
  must_duration key fallback = parsed_or parsers.parse_duration (getenv key) fallback

  unfoldable pub must_int : String → ℤ → ℤ
  must_int key fallback = parsed_or parsers.atoi (getenv key) fallback

  unfoldable pub must_bool : String → Bool → Bool
  must_bool key fallback = parsed_or parsers.parse_bool (trim_space (getenv key)) fallback

  unfoldable pub must_float : String → F → F
  must_float key fallback = parsed_or parsers.parse_float (trim_space (getenv key)) fallback

  -- The settings before they are checked.
  unfoldable pub read : Config F
  read = record {
    http_addr = get_env getenv "HTTP_ADDR" ":8080";
    database_url = getenv "DATABASE_URL";
    default_reviewer_id = get_env getenv "DEFAULT_REVIEWER_ID" "reviewer-1";
    reminder_after = must_duration "REMINDER_AFTER" (pos 1800000000000);
    execution_retry_base = must_duration "EXECUTION_RETRY_BASE" (pos 15000000000);
    execution_max_attempts = must_int "EXECUTION_MAX_ATTEMPTS" (pos 3);
    worker_poll_interval = must_duration "WORKER_POLL_INTERVAL" (pos 10000000000);
    worker_batch_size = must_int "WORKER_BATCH_SIZE" (pos 25);
    otel = record {
      enabled = must_bool "OTEL_ENABLED" false;
      service_name = get_env getenv "OTEL_SERVICE_NAME" "review-workflow";
      exporter_endpoint = trim_space (getenv "OTEL_EXPORTER_OTLP_ENDPOINT");
      insecure = must_bool "OTEL_EXPORTER_OTLP_INSECURE" false;
      sample_ratio = must_float "OTEL_SAMPLE_RATIO" parsers.one;
    };
  }

  -- The checks of `Load`, in their order.
  unfoldable pub check : Config F → Result (Config F)
  check cfg =
      if cfg.default_reviewer_id == ""
      then refuse "DEFAULT_REVIEWER_ID is required"
      else if cfg.database_url == ""
      then refuse "DATABASE_URL is required"
      else if leb_ℤ cfg.execution_max_attempts (pos 0)
      then refuse "EXECUTION_MAX_ATTEMPTS must be positive"
      else if cfg.otel.service_name == ""
      then refuse "OTEL_SERVICE_NAME must not be empty"
      else if parsers.is_negative cfg.otel.sample_ratio || parsers.exceeds_one cfg.otel.sample_ratio
      then refuse "OTEL_SAMPLE_RATIO must be between 0 and 1"
      else if cfg.otel.enabled && cfg.otel.exporter_endpoint == ""
      then refuse "OTEL_EXPORTER_OTLP_ENDPOINT is required when OTEL_ENABLED=true"
      else ok cfg

  unfoldable pub load : Result (Config F)
  unfolding check read
  load = check read
