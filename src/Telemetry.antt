-- ===== src/Telemetry.antt =====
-- What the packages hand to OpenTelemetry, zap and the clock: the contexts, spans and log lines that
-- kafka, redis, mysql and the interceptors share. The libraries are parameters.
use lunaship.Base.{String, Bool, true, false, Option, none, some, List, [], ◌≡◌, if◌then◌else◌}
use lunaship.Base.Int.{ℤ}
use lunaship.Base.Text.{is_empty}
use lunaship.Log.{Field, string, other}
use lunaship.Log.Context.{Context, with_trace, trace_from_context, is_sampled, with_trace-roundtrip}

-- A value of a field or of an attribute that is not a text.
pub data Scalar : Type 0 where
  int : ℤ → Scalar
  bool : Bool → Scalar

abbrev pub text_of : String → String → Field Scalar
text_of key s = record { key = key; value = string s }

abbrev pub int_of : String → ℤ → Field Scalar
int_of key n = record { key = key; value = other (int n) }

abbrev pub bool_of : String → Bool → Field Scalar
bool_of key b = record { key = key; value = other (bool b) }

-- trace.SpanContext
pub record SpanContext : Type 0 where
  pub is_valid : Bool
  pub trace_id : String
  pub span_id : String
  pub sampled : Bool

-- A context.Context: what the package log keeps in it, and the span that it carries.
pub record GoContext : Type 0 where
  pub logged : Context Scalar
  pub span : SpanContext

-- traceIdentifiers
unfoldable pub trace_identifiers : SpanContext → String × String × Bool
trace_identifiers sc = if sc.is_valid then (sc.trace_id, sc.span_id, sc.sampled) else ("", "", true)

-- parentSpanIDFromContext
unfoldable pub parent_span_id_from_context : GoContext → String
parent_span_id_from_context ctx = if ctx.span.is_valid then ctx.span.span_id else ""

-- The text map propagator and the tracers: `H` is a carrier of headers. `start` answers the context
-- of the new span, from the tracer's name, the span's name and the context.
pub record Otel (H : Type 0) : Type 0 where
  pub extract : GoContext → H → GoContext
  pub injected : GoContext → List (String × String)
  pub start : String → String → GoContext → SpanContext

-- tracer.Start, and then log.WithTrace with the new span's identifiers.
unfoldable pub start_span : {H : Type 0} → Otel H → String → String → GoContext → GoContext
start_span otel tracer name ctx =
    let span = otel.start tracer name ctx in
    let (trace_id, span_id, sampled) = trace_identifiers span in
    record {
      logged = with_trace ctx.logged trace_id span_id (parent_span_id_from_context ctx) sampled;
      span = span;
    }

-- The levels of the lines that are written.
pub data LineLevel : Type 0 where
  debug_line info_line warn_line error_line : LineLevel

pub record LogLine : Type 0 where
  pub level : LineLevel
  pub message : String
  pub fields : List (Field Scalar)

-- A span that has ended: its name, its attributes in the order in which they were set, and the
-- error recorded on it.
pub record EndedSpan (E : Type 0) : Type 0 where
  pub name : String
  pub attributes : List (Field Scalar)
  pub error : Option E

abbrev pub is_some : {A : Type 0} → Option A → Bool
is_some none = false
is_some (some a) = true

-- A span that is valid and has both identifiers is what the log lines of its context name, with its
-- sampling decision.
pub start_span-trace :
    {H : Type 0} (otel : Otel H) (tracer name : String) (ctx : GoContext)
    → (otel.start tracer name ctx).is_valid ≡ true
    → is_empty (otel.start tracer name ctx).trace_id ≡ false
    → is_empty (otel.start tracer name ctx).span_id ≡ false
    → (trace_from_context (some (start_span otel tracer name ctx).logged)
        ≡ some ((otel.start tracer name ctx).trace_id, (otel.start tracer name ctx).span_id))
      × (is_sampled (some (start_span otel tracer name ctx).logged)
          ≡ (otel.start tracer name ctx).sampled)
unfolding start_span trace_identifiers
start_span-trace otel tracer name ctx valid trace span = rw valid (
    with_trace-roundtrip ctx.logged (otel.start tracer name ctx).trace_id
      (otel.start tracer name ctx).span_id (parent_span_id_from_context ctx)
      (otel.start tracer name ctx).sampled trace span)

-- A vector of prometheus, and whether it is a counter, a gauge or a histogram with the default buckets.
pub data VectorKind : Type 0 where
  counter_vec gauge_vec histogram_vec : VectorKind

pub record Collector : Type 0 where
  pub kind : VectorKind
  pub name : String
  pub help : String
  pub labels : List String

-- How prometheus.Register answers.
pub data Registered (X : Type 0) : Type 0 where
  registered already_registered : Registered X
  refused : X → Registered X

-- StartAsyncSpan: the context of the new span, and what the function that it returns ends the span
-- with. The cancellation of contexts, which it takes away, is no part of them here.
unfoldable pub start_async_span :
    {H E : Type 0} → Otel H → String → GoContext → GoContext × (Option E → EndedSpan E)
start_async_span otel name ctx = (
  record ctx { span = otel.start "lunaship" name ctx },
  λ error. record { name = name; attributes = []; error = error },
)

-- Two collectors that are registered in turn, where the first panic ends it; `register` is
-- prometheus.Register, which changes the registry, and `panic` what the package makes of its answer.
unfoldable pub register_both :
    {X R : Type 0}
    → (Registered X → Option X)
    → (Collector → R → Registered X × R)
    → (first second : Collector) → R
    → Option X × R
register_both panic register first second registry =
    let one = register first registry in
    elim (panic one.0) [
      | some x ↦ (some x, one.1)
      | none ↦ let two = register second one.1 in (panic two.0, two.1)
    ]
