-- ===== src/Kafka/Instrumentation.antt =====
-- kafka/instrumentation.go: the span and the log line of a message. OpenTelemetry is a parameter, and
-- the durations are arguments.
use Prim.Native.Char.{Char}
use lunaship.Base.{String, Option, none, some, List, [], ◌∷◌, ◌++◌, if◌then◌else◌}
use lunaship.Base.Int.{ℤ}
use lunaship.Log.{Field}
use lunaship.Log.Context.{with_fields}
use lunaship.Telemetry.{
  Scalar, text_of, int_of, bool_of, GoContext, Otel, start_span, LogLine, info_line, error_line,
  EndedSpan, is_some,
}
use lunaship.Kafka.Headers.{RecordHeader, inject_all}
use lunaship.Kafka.Metadata.{
  KeyBytes, ConsumerMessage, ConsumerMetadata, ProducerMetadata, build_consumer_metadata,
  build_producer_metadata, consumer_context_fields, producer_context_fields,
  consumer_span_attributes, producer_span_attributes, consumer_span_name, producer_span_name,
  kafka_tracer_name,
}

-- A span that has been started: the context, its name, and the attributes so far.
pub record Started (M : Type 0) : Type 0 where
  pub context : GoContext
  pub name : String
  pub attributes : List (Field Scalar)
  pub metadata : M

module _ (fold : Char → Char) (otel : Otel (List RecordHeader)) (env : String → String)
    (app : String) where
  abbrev with_logged : GoContext → List (Field Scalar) → GoContext
  with_logged ctx fields = record ctx { logged = with_fields ctx.logged fields }

  unfoldable pub start_consumer_instrumentation :
      GoContext
      → (consumer_name consumer_group broker_addr : String) → ConsumerMessage
      → List RecordHeader
      → Started ConsumerMetadata
  start_consumer_instrumentation base consumer_name consumer_group broker_addr message headers =
      let metadata =
        build_consumer_metadata env app consumer_name consumer_group broker_addr message in
      let name = consumer_span_name consumer_name message.topic in
      record {
        context =
            with_logged (start_span otel (kafka_tracer_name env) name (otel.extract base headers))
              (consumer_context_fields metadata);
        name = name;
        attributes = consumer_span_attributes metadata;
        metadata = metadata;
      }

  -- The second component is the message's headers, into which the new span's context is injected.
  unfoldable pub start_producer_instrumentation :
      GoContext
      → (brokers topic : String) → KeyBytes
      → List RecordHeader
      → Started ProducerMetadata × List RecordHeader
  start_producer_instrumentation base brokers topic key headers =
      let metadata = build_producer_metadata env app brokers topic key in
      let name = producer_span_name topic in
      let context =
        with_logged (start_span otel (kafka_tracer_name env) name base)
          (producer_context_fields metadata) in
      (
        record {
          context = context;
          name = name;
          attributes = producer_span_attributes metadata;
          metadata = metadata;
        },
        inject_all fold (otel.injected context) headers,
      )

module _ {E : Type 0} (error_text : E → String) where
  -- The fields of the log line that tell an error.
  abbrev error_fields : Option E → List (Field Scalar)
  error_fields none = []
  error_fields (some e) = text_of "_error" (error_text e) ∷ []

  unfoldable pub finish_consumer_instrumentation :
      {M : Type 0} → Started M → Option E → ℤ → EndedSpan E × LogLine
  finish_consumer_instrumentation s error duration = (
    record {
      name = s.name;
      attributes =
          s.attributes ++ bool_of "error.flag" (is_some error) ∷ int_of "duration.ms" duration ∷ [];
      error = error;
    },
    record {
      level = if is_some error then error_line else info_line;
      message = "KAFKA_CONSUME";
      fields = s.context.logged.fields ++ (int_of "_dur_ms" duration ∷ error_fields error);
    },
  )

  abbrev produce_fields : ℤ → ℤ → ℤ → Option E → List (Field Scalar)
  produce_fields partition offset duration none =
      int_of "_partition" partition ∷ int_of "_offset" offset ∷ int_of "_dur_ms" duration ∷ []
  produce_fields partition offset duration (some e) =
      int_of "_dur_ms" duration ∷ text_of "_error" (error_text e) ∷ []

  unfoldable pub finish_producer_instrumentation :
      {M : Type 0} → Started M → (partition offset : ℤ) → Option E → ℤ → EndedSpan E × LogLine
  finish_producer_instrumentation s partition offset error duration = (
    record {
      name = s.name;
      attributes =
          s.attributes
          ++ int_of "kafka.partition" partition
            ∷ int_of "kafka.offset" offset
            ∷ bool_of "error.flag" (is_some error)
            ∷ int_of "duration.ms" duration
            ∷ [];
      error = error;
    },
    record {
      level = if is_some error then error_line else info_line;
      message = "KAFKA_PRODUCE";
      fields = s.context.logged.fields ++ produce_fields partition offset duration error;
    },
  )
