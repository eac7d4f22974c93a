-- ===== src/Service/Settings.antt =====
-- service/setup.go: the settings that are computed from the configuration and the environment.
use Prim.Native.Char.{Char}
use lunaship.Base.{
  String, Bool, true, false, not, ◌≡◌, if◌then◌else◌, ◌==◌, ◌||◌, arith, ap, eq_iff,
}
use lunaship.Base.Text.{trim_space, is_empty, str_or_default}
use lunaship.Config.App.{Floats, AppSection, lowered, IsValidApp}
use lunaship.Infra.Tracing.{TraceConfig}
use lunaship.Infra.Tracing.Init.{protocol_is_supported}
use lunaship.ModuleApi.Graph.{update}

abbrev pub default_app_config_path : String
default_app_config_path = "config/app.toml"

unfoldable pub resolve_app_config_path : (String → String) → String
resolve_app_config_path env =
    str_or_default (trim_space (env "APP_CONFIG_PATH")) default_app_config_path

-- os.Setenv
abbrev set_env : String → String → (String → String) → String → String
set_env name value env = update env name value

-- os.Setenv of a name that is unset or blank.
abbrev set_if_blank : String → String → (String → String) → String → String
set_if_blank name value env =
    if is_empty (trim_space (env name)) then set_env name value env else env

-- applyRuntimeMetadata for a configuration that is not nil.
unfoldable pub apply_runtime_metadata : String → (String → String) → String → String
apply_runtime_metadata app_name env =
    set_if_blank "OTEL_SERVICE_NAME" app_name
      (set_if_blank "SERVICE_ID" app_name (set_env "APP_NAME" app_name env))

-- The zapcore levels that the configuration names.
pub data Level : Type 0 where
  debug_level info_level warn_level error_level : Level

module _ (lower : Char → Char) where
  unfoldable pub log_level_from_config : String → Level
  log_level_from_config level =
      if lowered lower level == "debug"
      then debug_level
      else if lowered lower level == "warn"
      then warn_level
      else if lowered lower level == "error"
      then error_level
      else info_level

module _ (lower : Char → Char) {F : Type 0} (float : Floats F) where
  abbrev wire_protocol : String → String
  wire_protocol protocol =
      if is_empty protocol || (protocol == "http") then "http/protobuf" else protocol

  -- traceConfigFromAppConfig for a configuration that is not nil; `at_most` is `<=` on float64.
  unfoldable pub trace_config_from_app_config : (F → F → Bool) → AppSection F → TraceConfig F
  trace_config_from_app_config at_most c =
      let resource = trim_space c.trace.trace_endpoint in
      record {
        enabled = c.trace.enabled;
        service_name = c.app_name;
        otlp_endpoint = if is_empty resource then trim_space c.trace.endpoint else resource;
        otlp_protocol = wire_protocol (lowered lower c.trace.protocol);
        otlp_traces_endpoint = not (is_empty resource);
        legacy_collector_endpoint = false;
        sampler_type = "ratio";
        sampler_rate =
            if at_most c.trace.sample_rate (float.literal "0")
            then float.literal "0.001"
            else c.trace.sample_rate;
        error_log_disabled = false;
      }

  -- A section that Validate accepts gives a trace configuration whose protocol InitTracing accepts.
  pub valid_protocol_is_supported :
      (at_most : F → F → Bool) (c : AppSection F)
      → IsValidApp lower float c
      → protocol_is_supported (trace_config_from_app_config at_most c) ≡ true
  unfolding trace_config_from_app_config protocol_is_supported
  valid_protocol_is_supported at_most c v =
      ap (λ p. is_empty (wire_protocol p) || (wire_protocol p == "http/protobuf"))
        ((eq_iff (lowered lower c.trace.protocol) "http").0 v.protocol)

-- If the application's name is not blank, applyRuntimeMetadata sets APP_NAME to it, and SERVICE_ID
-- and OTEL_SERVICE_NAME are not blank afterwards.
pub apply_runtime_metadata-names :
    (app_name : String) (env : String → String)
    → is_empty (trim_space app_name) ≡ false
    → (apply_runtime_metadata app_name env "APP_NAME" ≡ app_name)
      × (is_empty (trim_space (apply_runtime_metadata app_name env "SERVICE_ID")) ≡ false)
      × (is_empty (trim_space (apply_runtime_metadata app_name env "OTEL_SERVICE_NAME")) ≡ false)
unfolding apply_runtime_metadata
apply_runtime_metadata-names app_name env named = ground arith
