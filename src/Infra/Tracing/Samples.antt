-- ===== src/Infra/Tracing/Samples.antt =====
-- The theorem on InitTracing applied to a configuration whose rate is too large.
use lunaship.Base.{
  ℕ, ◌-◌, String, true, false, Option, none, some, ◌≡◌, refl, ok, ltb, eqb, ◌==◌, if◌then◌else◌,
}
use lunaship.Config.App.{Floats}
use lunaship.Base.Text.{trim_space}
use lunaship.Infra.Tracing.{TraceConfig, parse_bool_env, parse_float_env, endpoint_from_env}
use lunaship.Trace.{load_trace_config_from_env, init_tracing_from_env, close_tracing}
use lunaship.Trace.Laws.{init-close_tracing}
use lunaship.Infra.Tracing.Export.{otlp_http_options}
use lunaship.Infra.Tracing.Init.{Provider, Globals, Libraries, init_tracing, protocol_is_supported}
use lunaship.Infra.Tracing.Laws.{Installs, init_tracing-Installs}

abbrev thousandths : Floats ℕ
thousandths = record {
  literal = λ s. if s == "1" then 1000 else 0;
  less = ltb;
  sub = ◌-◌;
  mul = λ a b. a;
  abs = λ a. a;
  round = λ a. a;
}

abbrev libraries : Libraries String ℕ
libraries = record {
  lower = λ c. c;
  float = thousandths;
  is_zero = λ n. eqb n 0;
  parse_url = λ s. ok (record { scheme = "https"; host = "collector:4318"; path = "/otlp/" });
  new_exporter = λ options. none;
  new_resource = λ name. none;
}

abbrev config : TraceConfig ℕ
config = record {
  enabled = true;
  service_name = "shop";
  otlp_endpoint = "https://collector:4318/otlp/";
  otlp_protocol = "http/protobuf";
  otlp_traces_endpoint = false;
  legacy_collector_endpoint = false;
  sampler_type = "ratio";
  sampler_rate = 7000;
  error_log_disabled = false;
}

abbrev globals : Globals ℕ
globals = record { error_log_disabled = false; closer = none; handler_set = false; provider = none }

init_tracing-Installs_example :
    Installs libraries config
      (init_tracing libraries config globals).0
      globals
      (init_tracing libraries config globals).1
init_tracing-Installs_example =
    init_tracing-Installs libraries config globals
      (record { zero_zero = refl; one_zero = refl; one_one = refl })

-- An environment that names a collector and leaves the rest as it is by default.
abbrev environment : String → String
environment name =
    if name == "OTEL_EXPORTER_OTLP_ENDPOINT" then "https://collector:4318/otlp/" else ""

abbrev no_float : String → Option ℕ
no_float text = none

abbrev shut_down : Provider ℕ → Option String
shut_down p = some "timeout"

tracing_enabled :
    (load_trace_config_from_env environment thousandths libraries.is_zero no_float).0.enabled ≡ true
unfolding lunaship.Infra.Tracing.load_trace_config_from_env parse_bool_env trim_space
tracing_enabled = refl

tracing_starts : (init_tracing_from_env libraries environment no_float globals).0 ≡ none
unfolding lunaship.Infra.Tracing.Init.init_tracing_from_env init_tracing
    lunaship.Infra.Tracing.load_trace_config_from_env parse_bool_env trim_space
    protocol_is_supported otlp_http_options endpoint_from_env
tracing_starts = refl

init-close_tracing_example :
    (p : Provider ℕ) × ((init_tracing_from_env libraries environment no_float globals).1.provider
      ≡ some p)
    × (close_tracing shut_down (init_tracing_from_env libraries environment no_float globals).1
        ≡ (some p, shut_down p))
init-close_tracing_example =
    init-close_tracing libraries environment no_float globals shut_down
      (record { zero_zero = refl; one_zero = refl; one_one = refl }) tracing_enabled tracing_starts
