-- ===== src/Infra/Tracing/Init.antt =====
-- infra/trace.go: InitTracing, InitTracingFromEnv and CloseTracing as functions on the globals that
-- they set. The exporter and the resource of OpenTelemetry are parameters.
use Prim.Native.Char.{Char}
use lunaship.Base.{
  ℕ, suc, String, Bool, true, not, Option, none, some, List, [], ◌∷◌, ◌++◌, Result, ok, err,
  if◌then◌else◌, ◌==◌, ◌||◌, ◌&&◌,
}
use lunaship.Base.Text.{is_empty}
use lunaship.Config.App.{Floats}
use lunaship.Telemetry.{LineLevel, info_line, warn_line, error_line, is_some}
use lunaship.Infra.Tracing.{TraceConfig, load_trace_config_from_env}
use lunaship.Infra.Tracing.Export.{
  Sampler, ExporterOption, Url, TraceError, unsupported_protocol, failed, build_sampler,
  otlp_http_options,
}

-- sdktrace.TracerProvider, as it is made.
pub record Provider (F : Type 0) : Type 0 where
  pub options : List ExporterOption
  pub service_name : String
  pub sampler : Sampler F

-- The package's flag, the provider whose Shutdown is traceCloser, and the globals of OpenTelemetry:
-- whether the error handler is set, and the provider with its propagator.
pub record Globals (F : Type 0) : Type 0 where
  pub error_log_disabled : Bool
  pub closer : Option (Provider F)
  pub handler_set : Bool
  pub provider : Option (Provider F)

-- The check of the protocol.
unfoldable pub protocol_is_supported : {F : Type 0} → TraceConfig F → Bool
protocol_is_supported conf = is_empty conf.otlp_protocol || (conf.otlp_protocol == "http/protobuf")

-- What InitTracing needs: the errors of otlptracehttp.New and resource.New are answers.
pub record Libraries (E F : Type 0) : Type 0 where
  pub lower : Char → Char
  pub float : Floats F
  pub is_zero : F → Bool
  pub parse_url : String → Result E Url
  pub new_exporter : List ExporterOption → Option E
  pub new_resource : String → Option E

module _ {E F : Type 0} (libs : Libraries E F) where
  abbrev provider_of : TraceConfig F → List ExporterOption → Provider F
  provider_of conf options = record {
    options = options;
    service_name = conf.service_name;
    sampler = build_sampler libs.float libs.lower libs.is_zero conf;
  }

  -- The end of InitTracing, behind the errors.
  abbrev install : Provider F → Globals F → Result (TraceError E) (Option (Provider F)) × Globals F
  install p g = (ok (some p), record g { closer = some p; provider = some p })

  -- InitTracing; the closer that is returned is known by the provider that it shuts down.
  unfoldable pub init_tracing :
      TraceConfig F → Globals F → Result (TraceError E) (Option (Provider F)) × Globals F
  init_tracing conf g =
      let g' : Globals F = record g {
        error_log_disabled = conf.error_log_disabled;
        handler_set = true;
      } in
      if not conf.enabled
      then (ok none, g)
      else if not (protocol_is_supported conf)
      then (err (unsupported_protocol conf.otlp_protocol), g')
      else elim (otlp_http_options libs.parse_url conf) [
        | err e ↦ (err e, g')
        | ok options ↦ elim (libs.new_exporter options) [
          | some e ↦ (err (failed e), g')
          | none ↦ elim (libs.new_resource conf.service_name) [
            | some e ↦ (err (failed e), g')
            | none ↦ install (provider_of conf options) g'
          ]
        ]
      ]

  abbrev line_if : Bool → LineLevel → String → List (LineLevel × String)
  line_if b level message = if b then (level, message) ∷ [] else []

  abbrev pub error_of_init : {A : Type 0} → Result (TraceError E) A → Option (TraceError E)
  error_of_init (ok a) = none
  error_of_init (err e) = some e

  -- InitTracingFromEnv, the lines of its log known by their messages.
  unfoldable pub init_tracing_from_env :
      (String → String)
      → (String → Option F)
      → Globals F
      → Option (TraceError E) × Globals F × List (LineLevel × String)
  init_tracing_from_env env parse_float g =
      let (conf, parse_error) =
        load_trace_config_from_env env libs.float libs.is_zero parse_float in
      let g' : Globals F = record g { error_log_disabled = conf.error_log_disabled } in
      let shows = not conf.error_log_disabled in
      let lines =
        line_if (is_some parse_error && shows) error_line "trace env parse failed"
        ++ (info_line, "trace config")
          ∷ line_if (conf.legacy_collector_endpoint && shows) warn_line
              "legacy JAEGER_COLLECTOR_ENDPOINT detected; use OTEL_EXPORTER_OTLP_ENDPOINT instead" in
      let (answer, end) = init_tracing conf g' in
      let failure = error_of_init answer in
      (failure, end, lines ++ line_if (is_some failure && shows) error_line "trace init failed")

-- CloseTracing: the provider that is shut down, and the answer of its Shutdown.
unfoldable pub close_tracing :
    {E F : Type 0} → (Provider F → Option E) → Globals F → Option (Provider F) × Option E
close_tracing shutdown g = elim g.closer [ none ↦ (none, none) | some p ↦ (some p, shutdown p) ]

-- traceErrorHandler.Handle: the counter of the errors, and the lines.
unfoldable pub handle : {E F : Type 0} → Option E → Globals F → ℕ → ℕ × List (LineLevel × String)
handle none g count = (suc count, [])
handle (some e) g count =
    (suc count, if g.error_log_disabled then [] else (error_line, "trace reporter error") ∷ [])
