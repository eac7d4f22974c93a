-- ===== src/Kafka/Consumer.antt =====
-- kafka/consumer.go: ConsumerWrapper, which handles the messages of a claim one after the other. The
-- session and the handler's effects are a state `S`; the libraries are parameters.
use Prim.Native.Char.{Char}
use lunaship.Base.{String, Bool, true, false, Option, none, some, List, [], ◌∷◌, ◌≡◌, refl, map, ap}
use lunaship.Base.Int.{ℤ}
use lunaship.Base.Text.{trim_space}
use lunaship.Telemetry.{GoContext, Otel, LogLine, EndedSpan}
use lunaship.Kafka.Headers.{RecordHeader}
use lunaship.Kafka.Metadata.{ConsumerMessage, primary_broker_endpoint}
use lunaship.Kafka.Metrics.{MetricEvent, record_consumer_metrics}
use lunaship.Kafka.Instrumentation.{start_consumer_instrumentation, finish_consumer_instrumentation}

-- A handler, by the error that it returns and the state that it leaves.
abbrev pub Handler : Type 0 → Type 0 → Type 0
Handler S E = GoContext → ConsumerMessage → S → Option E × S

-- ConsumerWrapper without its channel; `none` is the nil handler.
pub record ConsumerWrapper (S E : Type 0) : Type 0 where
  pub name : String
  pub handler : Option (Handler S E)
  pub consumer_group : String
  pub broker_addr : String

-- What a claim's loop receives: a message with its headers, the end of the channel, or the end of the
-- session's context.
pub data ClaimEvent : Type 0 where
  message : ConsumerMessage → List RecordHeader → ClaimEvent
  channel_closed context_done : ClaimEvent

-- What is recorded of one message.
pub record Consumed (E : Type 0) : Type 0 where
  pub message : ConsumerMessage
  pub error : Option E
  pub span : EndedSpan E
  pub line : LogLine
  pub metrics : List MetricEvent

module _ {S E : Type 0} where
  -- The function that NewConsumerWrapper makes of a handler that takes no context.
  abbrev plain_handler : Option (ConsumerMessage → S → Option E × S) → Handler S E
  plain_handler none ctx m s = (none, s)
  plain_handler (some f) ctx m s = f m s

  unfoldable pub new_consumer_wrapper :
      String → Option (ConsumerMessage → S → Option E × S) → ConsumerWrapper S E
  new_consumer_wrapper name f = record {
    name = name;
    handler = some (plain_handler f);
    consumer_group = "";
    broker_addr = "";
  }

  unfoldable pub new_context_consumer_wrapper : String → Option (Handler S E) → ConsumerWrapper S E
  new_context_consumer_wrapper name f = record {
    name = name;
    handler = f;
    consumer_group = "";
    broker_addr = "";
  }

  unfoldable pub bind_runtime : ConsumerWrapper S E → (group brokers : String) → ConsumerWrapper S E
  bind_runtime c group brokers = record c {
    consumer_group = trim_space group;
    broker_addr = primary_broker_endpoint brokers;
  }

  abbrev run_handler : Option (Handler S E) → Handler S E
  run_handler none ctx m s = (none, s)
  run_handler (some f) ctx m s = f ctx m s

  unfoldable pub handle_message : ConsumerWrapper S E → Handler S E
  handle_message c = run_handler c.handler

-- The libraries and the process, and the duration that a message's handling took.
pub record Platform (E : Type 0) : Type 0 where
  pub fold : Char → Char
  pub otel : Otel (List RecordHeader)
  pub env : String → String
  pub app : String
  pub error_text : E → String
  pub type_name : E → String
  pub duration : ConsumerMessage → ℤ

module _ {S E : Type 0} (on : Platform E) (c : ConsumerWrapper S E) where
  unfoldable pub consume_message :
      GoContext → ConsumerMessage → List RecordHeader → S → Consumed E × S
  consume_message base m headers s =
      let started =
        start_consumer_instrumentation on.fold on.otel on.env on.app base c.name c.consumer_group
          c.broker_addr m headers in
      let (error, s') = handle_message c started.context m s in
      let (span, line) =
        finish_consumer_instrumentation on.error_text started error (on.duration m) in
      (
        record {
          message = m;
          error = error;
          span = span;
          line = line;
          metrics = record_consumer_metrics on.type_name started.metadata (on.duration m) error;
        },
        s',
      )

  -- ConsumeClaim on the events in the order in which its select receives them: what it has consumed,
  -- the state, and whether it has returned. It returns no error.
  unfoldable pub consume_claim : GoContext → List ClaimEvent → S → List (Consumed E) × S × Bool
  consume_claim base [] s = ([], s, false)
  consume_claim base (channel_closed ∷ events) s = ([], s, true)
  consume_claim base (context_done ∷ events) s = ([], s, true)
  consume_claim base (message m headers ∷ events) s =
      let (one, s') = consume_message base m headers s in
      let (others, s'', returned) = consume_claim base events s' in (one ∷ others, s'', returned)

  -- The messages before the first end.
  abbrev pub received : List ClaimEvent → List ConsumerMessage
  received [] = []
  received (channel_closed ∷ events) = []
  received (context_done ∷ events) = []
  received (message m headers ∷ events) = m ∷ received events

  abbrev pub has_end : List ClaimEvent → Bool
  has_end [] = false
  has_end (channel_closed ∷ events) = true
  has_end (context_done ∷ events) = true
  has_end (message m headers ∷ events) = has_end events

  -- The handler's runs on the messages in turn, each in the state that the one before it left.
  abbrev pub run_all : GoContext → List ClaimEvent → S → S
  run_all base [] s = s
  run_all base (channel_closed ∷ events) s = s
  run_all base (context_done ∷ events) s = s
  run_all base (message m headers ∷ events) s =
      run_all base events (consume_message base m headers s).1

  -- A claim's loop handles every message that it receives before the first end, in order and whatever
  -- the handler answers for the ones before it, and returns exactly when an end comes.
  pub consume_claim-received :
      (base : GoContext) (events : List ClaimEvent) (s : S)
      → (map (λ x. x.message) (consume_claim base events s).0 ≡ received events)
        × ((consume_claim base events s).1 ≡ run_all base events s)
        × ((consume_claim base events s).2 ≡ has_end events)
  unfolding consume_claim consume_message
  consume_claim-received base [] s = (refl, refl, refl)
  consume_claim-received base (channel_closed ∷ events) s = (refl, refl, refl)
  consume_claim-received base (context_done ∷ events) s = (refl, refl, refl)
  consume_claim-received base (message m headers ∷ events) s =
      let (same, state, ended) =
        consume_claim-received base events (consume_message base m headers s).1 in
      (ap (λ l. m ∷ l) same, state, ended)
