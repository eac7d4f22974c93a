-- ===== src/Kafka/Metadata.antt =====
-- kafka/instrumentation.go: what is recorded of a message, as log fields and as span attributes.
-- `env` is os.Getenv, `app` the application's name in log.AppIdentity. The time at which the handling
-- starts is left out: the durations are arguments where they are recorded.
use Prim.Native.Char.{Char, code}
use Prim.Native.String.{◌++◌ as ◌<>◌, ◌∷◌ as ◌∷ₛ◌, [] as []ₛ}
use lunaship.Base.{ℕ, String, Bool, false, not, List, [], ◌∷◌, ◌++◌, if◌then◌else◌, leb, ◌&&◌, ◌||◌}
use lunaship.Base.Int.{ℤ, pos, leb_ℤ, ltb_ℤ}
use lunaship.Base.Text.{trim_space, is_empty, split, str_or_default}
use lunaship.Base.Scan.{format_int}
use lunaship.Log.{Field}
use lunaship.Telemetry.{Scalar, text_of, int_of}

-- The bytes of a key: valid UTF-8, held as its text, or anything else.
pub data KeyBytes : Type 0 where
  utf8 : String → KeyBytes
  raw : (first : ℕ) → (rest : List ℕ) → KeyBytes

-- sarama.ConsumerMessage, but for its headers and its payload.
pub record ConsumerMessage : Type 0 where
  pub topic : String
  pub partition : ℤ
  pub offset : ℤ
  pub key : KeyBytes

pub record ConsumerMetadata : Type 0 where
  pub topic : String
  pub partition : ℤ
  pub offset : ℤ
  pub consumer_group : String
  pub consumer_name : String
  pub instance_addr : String
  pub instance_port : ℤ
  pub kafka_key : String
  pub app_name : String
  pub kafka_instance : String

pub record ProducerMetadata : Type 0 where
  pub topic : String
  pub instance_addr : String
  pub instance_port : ℤ
  pub kafka_key : String
  pub app_name : String
  pub kafka_instance : String

-- unicode.IsControl
unfoldable pub is_control : Char → Bool
is_control c = leb (code c) 31 || (leb 127 (code c) && leb (code c) 159)

unfoldable pub has_control : String → Bool
has_control []ₛ = false
has_control (c ∷ₛ s) = is_control c || has_control s

unfoldable pub is_printable_kafka_key : KeyBytes → Bool
is_printable_kafka_key (raw first rest) = false
is_printable_kafka_key (utf8 s) = not (is_empty s) && not (has_control s)

abbrev key_text : KeyBytes → String
key_text (utf8 s) = if is_printable_kafka_key (utf8 s) then s else ""
key_text (raw first rest) = ""

-- The loop of primaryBrokerEndpoint.
unfoldable pub first_broker : List String → String
first_broker [] = ""
first_broker (broker ∷ rest) =
    if is_empty (trim_space broker) then first_broker rest else trim_space broker

unfoldable pub primary_broker_endpoint : String → String
primary_broker_endpoint brokers = first_broker (split "," brokers)

unfoldable pub join_host_port : String → ℤ → String
join_host_port host port =
    if is_empty (trim_space host)
    then ""
    else if leb_ℤ port (pos 0)
    then trim_space host
    else trim_space host <> ":" <> format_int port

abbrev instance_of : String → String
instance_of addr = if is_empty addr then "" else join_host_port addr (pos 0)

module _ (env : String → String) where
  unfoldable pub kafka_tracer_name : String
  kafka_tracer_name = str_or_default (trim_space (env "APP_NAME")) "lunaship.kafka"

  unfoldable pub kafka_app_name : String → String
  kafka_app_name app =
      if is_empty (trim_space app) then trim_space (env "APP_NAME") else trim_space app

  unfoldable pub build_consumer_metadata :
      (app consumer_name consumer_group broker_addr : String) → ConsumerMessage → ConsumerMetadata
  build_consumer_metadata app consumer_name consumer_group broker_addr m = record {
    topic = m.topic;
    partition = m.partition;
    offset = m.offset;
    consumer_group = trim_space consumer_group;
    consumer_name = trim_space consumer_name;
    instance_addr = primary_broker_endpoint broker_addr;
    instance_port = pos 0;
    kafka_key = key_text m.key;
    app_name = kafka_app_name app;
    kafka_instance = instance_of (primary_broker_endpoint broker_addr);
  }

  unfoldable pub build_producer_metadata :
      (app brokers topic : String) → KeyBytes → ProducerMetadata
  build_producer_metadata app brokers topic key = record {
    topic = trim_space topic;
    instance_addr = primary_broker_endpoint brokers;
    instance_port = pos 0;
    kafka_key = key_text key;
    app_name = kafka_app_name app;
    kafka_instance = instance_of (primary_broker_endpoint brokers);
  }

abbrev given : Bool → Field Scalar → List (Field Scalar)
given wanted f = if wanted then f ∷ [] else []

unfoldable pub consumer_context_fields : ConsumerMetadata → List (Field Scalar)
consumer_context_fields m =
    (text_of "_topic" m.topic
      ∷ int_of "_partition" m.partition
      ∷ int_of "_offset" m.offset
      ∷ text_of "_consumer_group" m.consumer_group
      ∷ text_of "_instance_addr" m.instance_addr
      ∷ [])
    ++ given (not (is_empty m.consumer_name)) (text_of "_consumer" m.consumer_name)
    ++ given (ltb_ℤ (pos 0) m.instance_port) (int_of "_instance_port" m.instance_port)
    ++ given (not (is_empty m.kafka_key)) (text_of "_kafka_key" m.kafka_key)

unfoldable pub producer_context_fields : ProducerMetadata → List (Field Scalar)
producer_context_fields m =
    (text_of "_topic" m.topic ∷ text_of "_instance_addr" m.instance_addr ∷ [])
    ++ given (ltb_ℤ (pos 0) m.instance_port) (int_of "_instance_port" m.instance_port)
    ++ given (not (is_empty m.kafka_key)) (text_of "_kafka_key" m.kafka_key)

unfoldable pub consumer_span_attributes : ConsumerMetadata → List (Field Scalar)
consumer_span_attributes m =
    (text_of "kafka.topic" m.topic
      ∷ int_of "kafka.partition" m.partition
      ∷ text_of "kafka.op" "consume"
      ∷ int_of "kafka.offset" m.offset
      ∷ text_of "consumer.group" m.consumer_group
      ∷ [])
    ++ given (not (is_empty m.kafka_instance)) (text_of "instance" m.kafka_instance)

unfoldable pub producer_span_attributes : ProducerMetadata → List (Field Scalar)
producer_span_attributes m =
    (text_of "kafka.topic" m.topic ∷ text_of "kafka.op" "produce" ∷ [])
    ++ given (not (is_empty m.kafka_instance)) (text_of "instance" m.kafka_instance)

unfoldable pub consumer_span_name : (consumer_name topic : String) → String
consumer_span_name consumer_name topic =
    if is_empty (trim_space consumer_name)
    then "kafka.consume " <> topic
    else "kafka.consume " <> consumer_name

unfoldable pub producer_span_name : String → String
producer_span_name topic = "kafka.produce " <> trim_space topic
