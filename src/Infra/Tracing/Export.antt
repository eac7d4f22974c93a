-- ===== src/Infra/Tracing/Export.antt =====
-- infra/trace.go: the sampler, and the options of the exporter. url.Parse is a parameter.
use Prim.Native.Char.{Char}
use Prim.Native.String.{◌++◌ as ◌<>◌}
use lunaship.Base.{String, Bool, List, [], ◌∷◌, Result, ok, err, if◌then◌else◌, ◌==◌}
use lunaship.Base.Text.{trim_space, is_empty, str_or_default}
use lunaship.Base.Scan.{contains_text, trim_right_char}
use lunaship.Config.App.{Floats, lowered}
use lunaship.Infra.Tracing.{TraceConfig}

-- The samplers of OpenTelemetry that are built; the last one is TraceIDRatioBased in ParentBased.
pub data Sampler (F : Type 0) : Type 0 where
  never_sample always_sample : Sampler F
  parent_based_ratio : (rate : F) → Sampler F

module _ {F : Type 0} (float : Floats F) where
  unfoldable pub clamp_sampler_rate : F → F
  clamp_sampler_rate rate =
      if float.less rate (float.literal "0")
      then float.literal "0"
      else if float.less (float.literal "1") rate
      then float.literal "1"
      else rate

  unfoldable pub build_sampler : (Char → Char) → (F → Bool) → TraceConfig F → Sampler F
  build_sampler lower is_zero conf =
      if lowered lower conf.sampler_type == "const"
      then (if is_zero conf.sampler_rate then never_sample else always_sample)
      else parent_based_ratio (clamp_sampler_rate conf.sampler_rate)

-- The options of otlptracehttp that are given.
pub data ExporterOption : Type 0 where
  with_endpoint with_url_path : (text : String) → ExporterOption
  with_insecure : ExporterOption

-- What url.Parse answers.
pub record Url : Type 0 where
  pub scheme : String
  pub host : String
  pub path : String

pub data TraceError (E : Type 0) : Type 0 where
  unsupported_protocol invalid_endpoint unsupported_scheme : (text : String) → TraceError E
  failed : E → TraceError E

unfoldable pub traces_path : {F : Type 0} → TraceConfig F → String → String
traces_path conf parsed_path =
    let path = trim_right_char "/" parsed_path in
    if conf.otlp_traces_endpoint then str_or_default path "/v1/traces" else path <> "/v1/traces"

abbrev raw_endpoint : String → String
raw_endpoint endpoint = if contains_text endpoint "://" then endpoint else "http://" <> endpoint

module _ {E F : Type 0} where
  abbrev options_of : String → Url → TraceConfig F → Result (TraceError E) (List ExporterOption)
  options_of endpoint url conf =
      if is_empty url.host
      then err (invalid_endpoint endpoint)
      else if url.scheme == "http"
      then ok
          (with_endpoint url.host ∷ with_url_path (traces_path conf url.path) ∷ with_insecure ∷ [])
      else if url.scheme == "https"
      then ok (with_endpoint url.host ∷ with_url_path (traces_path conf url.path) ∷ [])
      else err (unsupported_scheme url.scheme)

  unfoldable pub otlp_http_options :
      (String → Result E Url) → TraceConfig F → Result (TraceError E) (List ExporterOption)
  otlp_http_options parse_url conf =
      let endpoint = trim_space conf.otlp_endpoint in
      if is_empty endpoint
      then ok (with_endpoint "127.0.0.1:4318" ∷ with_url_path "/v1/traces" ∷ with_insecure ∷ [])
      else elim (parse_url (raw_endpoint endpoint)) [
        | err e ↦ err (failed e)
        | ok url ↦ options_of endpoint url conf
      ]
