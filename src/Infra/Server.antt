-- ===== src/Infra/Server.antt =====
-- infra/metric.go and infra/recover.go: the server of the metrics, and what a panic of a call is answered
-- with. The patterns are those of http.DefaultServeMux.
use lunaship.Base.{String, Bool, true, Option, none, some, List, [], ◌∷◌, ◌++◌, if◌then◌else◌}
use lunaship.Base.Text.{str_or_default}
use lunaship.Telemetry.{LineLevel, info_line, error_line}

unfoldable pub prometheus_listen_addr : (String → String) → String
prometheus_listen_addr env = str_or_default (env "PROMETHEUS_LISTEN_ADDR") ":9090"

-- metricHandlerOnce, the patterns that are handled, and the lines of the log.
pub record MetricGlobals : Type 0 where
  pub done : Bool
  pub patterns : List String
  pub lines : List (LineLevel × String)

abbrev failure_lines : {E : Type 0} → Option E → List (LineLevel × String)
failure_lines none = []
failure_lines (some e) = (error_line, "failed to start prometheus") ∷ []

-- InitMetric, which InitMetricAsync runs in a goroutine; `listen` is what ListenAndServe answers in the end.
unfoldable pub init_metric :
    {E : Type 0} → (String → Option E) → String → MetricGlobals → MetricGlobals
init_metric listen addr g = record {
  done = true;
  patterns = if g.done then g.patterns else g.patterns ++ "/metrics" ∷ [];
  lines = g.lines ++ (info_line, "starting prometheus") ∷ failure_lines (listen addr);
}

-- RecoverFn: its log line with the procedure, and the code of the error that the caller gets.
pub record Recovered : Type 0 where
  pub message : String
  pub target : String
  pub code : String

unfoldable pub recover_fn : (procedure : String) → Recovered
recover_fn procedure = record { message = "request panic"; target = procedure; code = "internal" }
