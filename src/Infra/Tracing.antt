-- ===== src/Infra/Tracing.antt =====
-- infra/trace.go: the configuration of the tracing, and how it is read from the environment. `env` is
-- os.Getenv, `parse_float` strconv.ParseFloat, `is_zero` the comparison with 0.
pub mod Export
pub mod Init
pub mod Laws
mod Samples
use Prim.Native.String.{◌++◌ as ◌<>◌}
use lunaship.Base.{
  String, Bool, true, false, not, Option, none, some, List, [], ◌∷◌, if◌then◌else◌, ◌==◌,
}
use lunaship.Base.Text.{trim_space, is_empty, str_or_default, contains}
use lunaship.Config.App.{Floats}

pub record TraceConfig (F : Type 0) : Type 0 where
  pub enabled : Bool
  pub service_name : String
  pub otlp_endpoint : String
  pub otlp_protocol : String
  pub otlp_traces_endpoint : Bool
  pub legacy_collector_endpoint : Bool
  pub sampler_type : String
  pub sampler_rate : F
  pub error_log_disabled : Bool

-- strconv.ParseBool
unfoldable pub parse_bool : String → Option Bool
parse_bool s =
    if contains ("1" ∷ "t" ∷ "T" ∷ "true" ∷ "TRUE" ∷ "True" ∷ []) s
    then some true
    else if contains ("0" ∷ "f" ∷ "F" ∷ "false" ∷ "FALSE" ∷ "False" ∷ []) s
    then some false
    else none

abbrev or_default : {A : Type 0} → A → String → Option A → A × Option String
or_default default message none = (default, some message)
or_default default message (some a) = (a, none)

abbrev first_error : Option String → Option String → Option String
first_error none later = later
first_error (some e) later = some e

module _ (env : String → String) where
  unfoldable pub parse_bool_env : String → Bool → Bool × Option String
  parse_bool_env key default =
      let value = trim_space (env key) in
      if is_empty value
      then (default, none)
      else or_default default (key <> " must be true/false") (parse_bool value)

  unfoldable pub parse_float_env :
      {F : Type 0} → (String → Option F) → String → F → F × Option String
  parse_float_env parse_float key default =
      let value = trim_space (env key) in
      if is_empty value
      then (default, none)
      else or_default default (key <> " must be a float") (parse_float value)

  -- The endpoint, whether it is one for traces, and whether it is the legacy one.
  unfoldable pub endpoint_from_env : String × Bool × Bool
  endpoint_from_env =
      let traces = trim_space (env "OTEL_EXPORTER_OTLP_TRACES_ENDPOINT") in
      let endpoint = trim_space (env "OTEL_EXPORTER_OTLP_ENDPOINT") in
      let legacy = trim_space (env "JAEGER_COLLECTOR_ENDPOINT") in
      if not (is_empty traces)
      then (traces, true, false)
      else if not (is_empty endpoint)
      then (endpoint, false, false)
      else if not (is_empty legacy)
      then (legacy, true, true)
      else ("", false, false)

  module _ {F : Type 0} (float : Floats F) (is_zero : F → Bool)
      (parse_float : String → Option F) where
    -- The rate of the sampler `const` is 0 or 1.
    abbrev rate_of : String → F → F
    rate_of sampler_type rate =
        if sampler_type == "const"
        then (if is_zero rate then float.literal "0" else float.literal "1")
        else rate

    -- LoadTraceConfigFromEnv. The package's flag traceErrorLogDisabled is set to the configuration's.
    unfoldable pub load_trace_config_from_env : TraceConfig F × Option String
    load_trace_config_from_env =
        let (enabled, enabled_error) = parse_bool_env "TRACE_ENABLED" true in
        let (log_disabled, log_error) = parse_bool_env "TRACE_ERROR_LOG_DISABLED" false in
        let (rate, rate_error) =
          parse_float_env parse_float "JAEGER_SAMPLER_RATE" (float.literal "1.0") in
        let sampler_type = str_or_default (trim_space (env "JAEGER_SAMPLER_TYPE")) "const" in
        let (endpoint, is_traces, is_legacy) = endpoint_from_env in
        (
          record {
            enabled = enabled;
            service_name = str_or_default (env "OTEL_SERVICE_NAME") (
                str_or_default (env "JAEGER_SERVICE_NAME")
                  (str_or_default (env "SERVICE_ID") "lunaship"));
            otlp_endpoint = endpoint;
            otlp_protocol =
                str_or_default (trim_space (env "OTEL_EXPORTER_OTLP_PROTOCOL")) "http/protobuf";
            otlp_traces_endpoint = is_traces;
            legacy_collector_endpoint = is_legacy;
            sampler_type = sampler_type;
            sampler_rate = rate_of sampler_type rate;
            error_log_disabled = log_disabled;
          },
          first_error enabled_error (first_error log_error rate_error),
        )
