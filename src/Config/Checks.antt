-- ===== src/Config/Checks.antt =====
-- What the settings satisfy when `config.Load` accepts them.
use review_workflow.Base.{◌≡◌, false, ◌&&◌, ◌==◌, String, arith}
use review_workflow.Base.Int.{pos, ◌<ℤ◌}
use review_workflow.Application.Errors.{ok}
use review_workflow.Config.{Parsers, Config, check}

-- What the checks ask of settings, but for the two names that have a fallback. Of the sampling
-- ratio they ask that neither comparison holds, which is so for NaN too.
pub record IsValid {F : Type 0} (parsers : Parsers F) (cfg : Config F) : Type 0 where
  pub has_database : (cfg.database_url == "") ≡ false
  pub has_attempts : pos 0 <ℤ cfg.execution_max_attempts
  pub ratio_not_negative : parsers.is_negative cfg.otel.sample_ratio ≡ false
  pub ratio_at_most_one : parsers.exceeds_one cfg.otel.sample_ratio ≡ false
  pub has_endpoint : (cfg.otel.enabled && cfg.otel.exporter_endpoint == "") ≡ false

module _ {F : Type 0} (parsers : Parsers F) (getenv : String → String) where
  pub check-IsValid :
      (cfg cfg' : Config F)
      → check parsers getenv cfg ≡ ok cfg'
      → (cfg' ≡ cfg) × IsValid parsers cfg
  unfolding check
  check-IsValid cfg cfg' h = (
    ground arith,
    record {
      has_database = ground arith;
      has_attempts = ground arith;
      ratio_not_negative = ground arith;
      ratio_at_most_one = ground arith;
      has_endpoint = ground arith;
    },
  )
