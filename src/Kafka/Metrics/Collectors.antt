-- ===== src/Kafka/Metrics/Collectors.antt =====
-- kafka/metrics.go and interceptor/metrics.go: the collectors, their registration, and how many labels
-- they are given. WithLabelValues panics if a collector gets more or fewer values than it has labels.
use lunaship.Base.{String, Option, none, some, List, [], ◌∷◌, ◌≡◌, refl, All, length}
use lunaship.Base.Int.{ℤ}
use lunaship.Kafka.Metadata.{ConsumerMetadata, ProducerMetadata}
use lunaship.Kafka.Metrics.{
  MetricEvent, consume_duration, consume_error, produce_duration, produce_error,
  register_kafka_collector, record_consumer_metrics, record_producer_metrics,
}
use lunaship.Telemetry.{
  Collector, counter_vec, gauge_vec, histogram_vec, Registered, registered, already_registered,
  refused, register_both,
}

abbrev pub kafka_consume_duration_ms : Collector
kafka_consume_duration_ms = record {
  kind = gauge_vec;
  name = "kafka_consume_duration_ms";
  help = "Latest Kafka consumer message handling duration in milliseconds.";
  labels = "kafka_instance" ∷ "topic" ∷ "partition" ∷ "consumer_group" ∷ "app" ∷ [];
}

abbrev pub kafka_consume_error_count : Collector
kafka_consume_error_count = record {
  kind = counter_vec;
  name = "kafka_consume_error_count";
  help = "Kafka consumer message handling errors by error type.";
  labels = "kafka_instance" ∷ "topic" ∷ "partition" ∷ "consumer_group" ∷ "app" ∷ "error_type" ∷ [];
}

abbrev pub kafka_produce_duration_ms : Collector
kafka_produce_duration_ms = record {
  kind = gauge_vec;
  name = "kafka_produce_duration_ms";
  help = "Latest Kafka producer message publish duration in milliseconds.";
  labels = "kafka_instance" ∷ "topic" ∷ "partition" ∷ "app" ∷ [];
}

abbrev pub kafka_produce_error_count : Collector
kafka_produce_error_count = record {
  kind = counter_vec;
  name = "kafka_produce_error_count";
  help = "Kafka producer message publish errors by error type.";
  labels = "kafka_instance" ∷ "topic" ∷ "partition" ∷ "app" ∷ "error_type" ∷ [];
}

abbrev pub rpc_server_requests_total : Collector
rpc_server_requests_total = record {
  kind = counter_vec;
  name = "rpc_server_requests_total";
  help = "Total number of unary RPC server requests by endpoint and code.";
  labels = "service" ∷ "endpoint" ∷ "code" ∷ [];
}

abbrev pub rpc_server_request_duration_seconds : Collector
rpc_server_request_duration_seconds = record {
  kind = histogram_vec;
  name = "rpc_server_request_duration_seconds";
  help = "Unary RPC server request duration in seconds by endpoint and code.";
  labels = "service" ∷ "endpoint" ∷ "code" ∷ [];
}

-- registerCollector of the interceptors; `some` is the panic.
unfoldable pub register_collector : {X : Type 0} → Registered X → Option X
register_collector registered = none
register_collector already_registered = none
register_collector (refused x) = some x

module _ {X R : Type 0} (register : Collector → R → Registered X × R) where
  unfoldable pub register_consumer_metrics : R → Option X × R
  register_consumer_metrics registry =
      register_both register_kafka_collector register kafka_consume_duration_ms
        kafka_consume_error_count registry

  unfoldable pub register_producer_metrics : R → Option X × R
  register_producer_metrics registry =
      register_both register_kafka_collector register kafka_produce_duration_ms
        kafka_produce_error_count registry

  -- RegisterMetric, which NewMetricsInterceptor calls.
  unfoldable pub register_metric : R → Option X × R
  register_metric registry =
      register_both register_collector register rpc_server_requests_total
        rpc_server_request_duration_seconds registry

-- The collector that an event changes, and the values that it is given.
abbrev pub collector_of : MetricEvent → Collector
collector_of (consume_duration labels duration) = kafka_consume_duration_ms
collector_of (consume_error labels) = kafka_consume_error_count
collector_of (produce_duration labels duration) = kafka_produce_duration_ms
collector_of (produce_error labels) = kafka_produce_error_count

abbrev pub values_of : MetricEvent → List String
values_of (consume_duration labels duration) = labels
values_of (consume_error labels) = labels
values_of (produce_duration labels duration) = labels
values_of (produce_error labels) = labels

-- An event gives its collector one value for each label.
abbrev pub Fits : MetricEvent → Type 0
Fits e = length (values_of e) ≡ length (collector_of e).labels

module _ {E : Type 0} (type_name : E → String) where
  consumer-Fits :
      (m : ConsumerMetadata) (duration : ℤ) (error : Option E)
      → All Fits (record_consumer_metrics type_name m duration error)
  unfolding record_consumer_metrics
  consumer-Fits m duration none = (refl, tt)
  consumer-Fits m duration (some e) = (refl, (refl, tt))

  producer-Fits :
      (m : ProducerMetadata) (duration partition : ℤ) (error : Option E)
      → All Fits (record_producer_metrics type_name m duration partition error)
  unfolding record_producer_metrics
  producer-Fits m duration partition none = (refl, tt)
  producer-Fits m duration partition (some e) = (refl, (refl, tt))

  -- Whatever a consumer or a producer records of a message, with an error or without one, each collector is
  -- given one value for each of its labels, so that no call panics on their number.
  pub recorded-Fits :
      (c : ConsumerMetadata) (p : ProducerMetadata) (duration partition : ℤ) (error : Option E)
      → All Fits (record_consumer_metrics type_name c duration error)
        × All Fits (record_producer_metrics type_name p duration partition error)
  recorded-Fits c p duration partition error =
      (consumer-Fits c duration error, producer-Fits p duration partition error)
