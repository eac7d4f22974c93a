-- ===== src/Kafka/Metrics.antt =====
-- kafka/metrics.go: what is recorded of a message that has been handled. The prometheus registry is a
-- parameter; `type_name` is fmt's %T.
pub mod Collectors
use lunaship.Base.{String, Option, none, some, List, [], ◌∷◌, ◌++◌}
use lunaship.Base.Int.{ℤ}
use lunaship.Base.Scan.{format_int}
use lunaship.Kafka.Metadata.{ConsumerMetadata, ProducerMetadata}
use lunaship.Telemetry.{Registered, registered, already_registered, refused}

-- A change of a metric: a gauge is set to a duration, or a counter goes up by one.
pub data MetricEvent : Type 0 where
  consume_duration produce_duration : (labels : List String) → (duration : ℤ) → MetricEvent
  consume_error produce_error : (labels : List String) → MetricEvent

-- registerKafkaCollector; `some` is the panic.
unfoldable pub register_kafka_collector : {X : Type 0} → Registered X → Option X
register_kafka_collector registered = none
register_kafka_collector already_registered = none
register_kafka_collector (refused x) = some x

module _ {E : Type 0} (type_name : E → String) where
  unfoldable pub consumer_error_type : Option E → String
  consumer_error_type none = ""
  consumer_error_type (some e) = type_name e

  abbrev consumer_labels : ConsumerMetadata → List String
  consumer_labels m =
      m.kafka_instance ∷ m.topic ∷ format_int m.partition ∷ m.consumer_group ∷ m.app_name ∷ []

  abbrev producer_labels : ProducerMetadata → ℤ → List String
  producer_labels m partition = m.kafka_instance ∷ m.topic ∷ format_int partition ∷ m.app_name ∷ []

  abbrev on_error : Option E → (String → MetricEvent) → List MetricEvent
  on_error none event = []
  on_error (some e) event = event (consumer_error_type (some e)) ∷ []

  unfoldable pub record_consumer_metrics : ConsumerMetadata → ℤ → Option E → List MetricEvent
  record_consumer_metrics m duration error =
      consume_duration (consumer_labels m) duration
      ∷ on_error error (λ type. consume_error (consumer_labels m ++ type ∷ []))

  unfoldable pub record_producer_metrics :
      ProducerMetadata → ℤ → (partition : ℤ) → Option E → List MetricEvent
  record_producer_metrics m duration partition error =
      produce_duration (producer_labels m partition) duration
      ∷ on_error error (λ type. produce_error (producer_labels m partition ++ type ∷ []))
