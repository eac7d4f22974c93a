-- ===== src/Kafka/Producer.antt =====
-- kafka/producer.go: KafkaProducer. The sarama client is a parameter: its answers are arguments. A
-- call of a method is one step.
pub mod Laws
pub mod Race
use Prim.Native.Char.{Char}
use lunaship.Base.{
  ℕ, String, Bool, true, false, Option, none, some, List, [], ◌∷◌, ◌++◌, Result, ok, err,
  if◌then◌else◌,
}
use lunaship.Base.Int.{ℤ, negsuc}
use lunaship.Base.Text.{trim_space, is_empty, split}
use lunaship.Telemetry.{GoContext, Otel, LogLine, EndedSpan}
use lunaship.Kafka.Headers.{RecordHeader}
use lunaship.Kafka.Metadata.{KeyBytes, ProducerMetadata}
use lunaship.Kafka.Metrics.{MetricEvent, record_producer_metrics}
use lunaship.Kafka.Instrumentation.{
  Started, start_producer_instrumentation, finish_producer_instrumentation,
}

pub data ProducerError (E : Type 0) : Type 0 where
  producer_closed no_brokers empty_topic : ProducerError E
  client : E → ProducerError E

-- Message; the map of headers is held as its entries in range order.
pub record Message (P : Type 0) : Type 0 where
  pub key : KeyBytes
  pub headers : List (String × String)
  pub payload : P

-- sarama.ProducerMessage. An empty key is not set, which is what the empty text stands for.
pub record ProducerMessage (P : Type 0) : Type 0 where
  pub topic : String
  pub key : KeyBytes
  pub headers : List RecordHeader
  pub value : P

-- The client is held as its being there; `close_done` is the sync.Once.
pub record KafkaProducer (E : Type 0) : Type 0 where
  pub brokers : String
  pub topic : String
  pub client_open : Bool
  pub close_done : Bool
  pub close_error : Option E

abbrev keep_broker : String → List String → List String
keep_broker broker rest = if is_empty broker then rest else broker ∷ rest

-- The loop of parseBrokerList.
unfoldable pub keep_brokers : List String → List String
keep_brokers [] = []
keep_brokers (broker ∷ rest) = keep_broker (trim_space broker) (keep_brokers rest)

unfoldable pub parse_broker_list : String → List String
parse_broker_list brokers = keep_brokers (split "," brokers)

module _ {E : Type 0} where
  abbrev connect : String → String → Option E → Result (ProducerError E) (KafkaProducer E)
  connect brokers topic (some e) = err (client e)
  connect brokers topic none = ok (record {
    brokers = brokers;
    topic = topic;
    client_open = true;
    close_done = false;
    close_error = none;
  })

  abbrev with_brokers :
      List String
      → String
      → String
      → (List String → Option E)
      → Result (ProducerError E) (KafkaProducer E)
  with_brokers [] brokers topic dial = err no_brokers
  with_brokers (b ∷ bs) brokers topic dial = connect brokers topic (dial (b ∷ bs))

  -- NewKafkaProducer; `dial` is the answer of sarama.NewSyncProducer. The client's configuration, of
  -- which one flag is set, is left out.
  unfoldable pub new_kafka_producer :
      (List String → Option E)
      → (brokers topic : String) → Result (ProducerError E) (KafkaProducer E)
  new_kafka_producer dial brokers topic =
      if is_empty (trim_space brokers)
      then err no_brokers
      else if is_empty (trim_space topic)
      then err empty_topic
      else with_brokers (parse_broker_list (trim_space brokers)) (trim_space brokers)
          (trim_space topic) dial

-- The headers of the message; a key that is blank is left out.
unfoldable pub message_headers : List (String × String) → List RecordHeader
message_headers [] = []
message_headers ((key, value) ∷ rest) =
    let more = message_headers rest in
    if is_empty (trim_space key)
    then more
    else record { key = trim_space key; value = value } ∷ more

-- What SendMessage answers.
pub record Sent (E : Type 0) : Type 0 where
  pub partition : ℤ
  pub offset : ℤ
  pub error : Option E

-- What Publish returns, and what it has handed to the client, to the tracer, to the log and to the
-- metrics on the way.
pub record Published (E P : Type 0) : Type 0 where
  pub partition : ℤ
  pub offset : ℤ
  pub error : Option (ProducerError E)
  pub sent : Option (ProducerMessage P)
  pub span : Option (EndedSpan E)
  pub line : Option LogLine
  pub metrics : List MetricEvent

abbrev client_error : {E : Type 0} → Option E → Option (ProducerError E)
client_error none = none
client_error (some e) = some (client e)

-- What Publish and Close need of the libraries and of the process.
pub record Surroundings (E P : Type 0) : Type 0 where
  pub fold : Char → Char
  pub otel : Otel (List RecordHeader)
  pub env : String → String
  pub app : String
  pub error_text : E → String
  pub type_name : E → String
  pub send : ProducerMessage P → Sent E
  pub duration : ℤ

module _ {E P : Type 0} (around : Surroundings E P) where
  -- The producer's answer while its client is there.
  unfoldable pub publish_open : KafkaProducer E → GoContext → Message P → Published E P
  publish_open p ctx msg =
      let (started, headers) =
        start_producer_instrumentation around.fold around.otel around.env around.app ctx p.brokers
          p.topic msg.key (message_headers msg.headers) in
      let message : ProducerMessage P = record {
        topic = p.topic;
        key = msg.key;
        headers = headers;
        value = msg.payload;
      } in
      let answer = around.send message in
      let (span, line) =
        finish_producer_instrumentation around.error_text started answer.partition answer.offset
          answer.error around.duration in
      record {
        partition = answer.partition;
        offset = answer.offset;
        error = client_error answer.error;
        sent = some message;
        span = some span;
        line = some line;
        metrics =
            record_producer_metrics around.type_name started.metadata around.duration
              answer.partition answer.error;
      }

  -- Publish; a nil context is the background, which is the caller's choice here.
  unfoldable pub publish : Option (KafkaProducer E) → GoContext → Message P → Published E P
  publish none ctx msg = record {
    partition = negsuc 0;
    offset = negsuc 0;
    error = some producer_closed;
    sent = none;
    span = none;
    line = none;
    metrics = [];
  }
  publish (some p) ctx msg = elim p.client_open [
    | true ↦ publish_open p ctx msg
    | false ↦ record {
      partition = negsuc 0;
      offset = negsuc 0;
      error = some producer_closed;
      sent = none;
      span = none;
      line = none;
      metrics = [];
    }
  ]

-- What Close returns, the producer that it leaves, and whether it has closed the client.
pub record Closed (E : Type 0) : Type 0 where
  pub error : Option E
  pub producer : KafkaProducer E
  pub client_closed : Bool

-- Close of a producer that is not nil; `answer` is that of the client's Close.
unfoldable pub close : {E : Type 0} → Option E → KafkaProducer E → Closed E
close answer p = elim p.close_done [
  | true ↦ record { error = p.close_error; producer = p; client_closed = false }
  | false ↦ elim p.client_open [
    | false ↦ record {
      error = none;
      producer = record p { close_done = true; close_error = none };
      client_closed = false;
    }
    | true ↦ record {
      error = answer;
      producer = record p { client_open = false; close_done = true; close_error = answer };
      client_closed = true;
    }
  ]
]
