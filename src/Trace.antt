-- ===== src/Trace.antt =====
-- trace/trace.go: the package trace, whose text is that of infra/trace.go with the same globals of its own,
-- so its functions are those of Infra/Tracing on globals of the package; only StartAsyncSpan, which is in
-- Telemetry, is added. No program can have both packages, since both register a counter of one name.
pub mod Laws
use Prim.Native.Char.{Char}
use lunaship.Base.{ℕ, String, Bool, Option, List, Result}
use lunaship.Config.App.{Floats}
use lunaship.Infra.Tracing as Twin
use lunaship.Infra.Tracing.{TraceConfig}
use lunaship.Infra.Tracing.Export as Export
use lunaship.Infra.Tracing.Export.{Sampler, ExporterOption, Url, TraceError}
use lunaship.Infra.Tracing.Init as Init
use lunaship.Infra.Tracing.Init.{Provider, Globals, Libraries}
use lunaship.Telemetry.{LineLevel}

abbrev pub load_trace_config_from_env :
    {F : Type 0}
    → (String → String)
    → Floats F
    → (F → Bool)
    → (String → Option F)
    → TraceConfig F × Option String
load_trace_config_from_env env float is_zero parse_float =
    Twin.load_trace_config_from_env env float is_zero parse_float

abbrev pub parse_bool_env : (String → String) → String → Bool → Bool × Option String
parse_bool_env env key default = Twin.parse_bool_env env key default

abbrev pub parse_float_env :
    {F : Type 0} → (String → String) → (String → Option F) → String → F → F × Option String
parse_float_env env parse_float key default = Twin.parse_float_env env parse_float key default

abbrev pub clamp_sampler_rate : {F : Type 0} → Floats F → F → F
clamp_sampler_rate float rate = Export.clamp_sampler_rate float rate

abbrev pub build_sampler :
    {F : Type 0} → Floats F → (Char → Char) → (F → Bool) → TraceConfig F → Sampler F
build_sampler float lower is_zero conf = Export.build_sampler float lower is_zero conf

abbrev pub otlp_http_options :
    {E F : Type 0}
    → (String → Result E Url)
    → TraceConfig F
    → Result (TraceError E) (List ExporterOption)
otlp_http_options parse_url conf = Export.otlp_http_options parse_url conf

abbrev pub init_tracing :
    {E F : Type 0}
    → Libraries E F
    → TraceConfig F
    → Globals F
    → Result (TraceError E) (Option (Provider F)) × Globals F
init_tracing libs conf g = Init.init_tracing libs conf g

abbrev pub init_tracing_from_env :
    {E F : Type 0}
    → Libraries E F
    → (String → String)
    → (String → Option F)
    → Globals F
    → Option (TraceError E) × Globals F × List (LineLevel × String)
init_tracing_from_env libs env parse_float g = Init.init_tracing_from_env libs env parse_float g

-- TraceErrorLogDisabled
abbrev pub trace_error_log_disabled : {F : Type 0} → Globals F → Bool
trace_error_log_disabled g = g.error_log_disabled

abbrev pub close_tracing :
    {E F : Type 0} → (Provider F → Option E) → Globals F → Option (Provider F) × Option E
close_tracing shutdown g = Init.close_tracing shutdown g

abbrev pub handle : {E F : Type 0} → Option E → Globals F → ℕ → ℕ × List (LineLevel × String)
handle error g count = Init.handle error g count
