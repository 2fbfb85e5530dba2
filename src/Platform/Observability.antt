-- ===== src/Platform/Observability.antt =====
-- internal/platform/observability/otel.go. The OTLP exporter and the resource of the OpenTelemetry
-- library are parameters, and what it is set up with is kept; the propagator and logging are left
-- out.
use review_workflow.Base.{not, String, ◌<>◌, List, [], ◌∷◌, if◌then◌else◌}
use review_workflow.Application.Errors.{Error, Result, ok, err}
use review_workflow.Config.{OtelConfig}

pub data ClientOption : Type 0 where
  with_endpoint : String → ClientOption
  with_insecure : ClientOption

pub record Otel (E R : Type 0) : Type 0 where
  pub new_exporter : List ClientOption → Result E
  pub merge_resource : List (String × String) → Result R

-- The tracer provider, where there is one.
pub data Tracing (F E R : Type 0) : Type 0 where
  disabled : Tracing F E R
  provider : E → R → F → Tracing F E R

-- `fmt.Errorf("...: %w", e)`
abbrev pub prefixed : String → Error → Error
prefixed text e = record { kind = e.kind; message = text <> e.message }

unfoldable pub client_options : {F : Type 0} → OtelConfig F → List ClientOption
client_options cfg =
    with_endpoint cfg.exporter_endpoint ∷ (if cfg.insecure then with_insecure ∷ [] else [])

module _ {F E R : Type 0} (otel : Otel E R) (cfg : OtelConfig F) where
  -- The rest, by the outcome of the resource and of the exporter.
  abbrev pub with_resource : E → Result R → Result (Tracing F E R)
  with_resource exporter (err e) = err (prefixed "build otel resource: " e)
  with_resource exporter (ok resource) = ok (provider exporter resource cfg.sample_ratio)

  abbrev pub with_exporter : Result E → Result (Tracing F E R)
  with_exporter (err e) = err (prefixed "create otlp exporter: " e)
  with_exporter (ok exporter) = with_resource exporter (
      otel.merge_resource
        (("service.name", cfg.service_name) ∷ ("service.namespace", "review-workflow") ∷ []))

  unfoldable pub setup : Result (Tracing F E R)
  unfolding client_options
  setup =
      if not cfg.enabled
      then ok disabled
      else with_exporter (otel.new_exporter (client_options cfg))
