-- ===== src/Kafka/Producer/Laws.antt =====
-- kafka/producer.go: what is sent, and what Close leaves.
use lunaship.Base.{String, true, false, Option, none, some, List, ◌≡◌, refl, All, arith}
use lunaship.Base.Int.{negsuc}
use lunaship.Base.Scan.{equal_fold}
use lunaship.Telemetry.{GoContext}
use lunaship.Kafka.Headers.{get_header, AreDistinct, inject-get_header, get_header-inject_other}
use lunaship.Kafka.Instrumentation.{start_producer_instrumentation}
use lunaship.Kafka.Producer.{
  KafkaProducer, Message, ProducerMessage, Surroundings, producer_closed, publish, publish_open,
  message_headers, close,
}

module _ {E P : Type 0} (around : Surroundings E P) where
  -- The pairs that the propagator injects for the span of a message.
  abbrev pub injected_for : KafkaProducer E → GoContext → Message P → List (String × String)
  injected_for p ctx msg =
      around.otel.injected
        (start_producer_instrumentation around.fold around.otel around.env around.app ctx p.brokers
          p.topic msg.key (message_headers msg.headers)).0.context

  -- A message that is published carries its span: a consumer's carrier reads every pair that the
  -- propagator injects, whatever headers the caller gave, and under a key that is none of the injected
  -- ones it reads what it reads from the caller's headers. No two injected keys may be equal up to
  -- case, and the client must be open.
  pub publish-carries_trace :
      (p : KafkaProducer E) (ctx : GoContext) (msg : Message P) (key : String)
      → p.client_open ≡ true
      → AreDistinct around.fold (injected_for p ctx msg)
      → All (λ q. equal_fold around.fold q.0 key ≡ false) (injected_for p ctx msg)
      → (m : ProducerMessage P) × ((publish around (some p) ctx msg).sent ≡ some m)
        × All (λ q. get_header around.fold m.headers q.0 ≡ q.1) (injected_for p ctx msg)
        × (get_header around.fold m.headers key
            ≡ get_header around.fold (message_headers msg.headers) key)
  unfolding publish publish_open start_producer_instrumentation
  publish-carries_trace p ctx msg key up distinct others =
      rw (up, publish)
        (
          _,
          refl,
          inject-get_header around.fold (injected_for p ctx msg) (message_headers msg.headers)
              distinct,
          get_header-inject_other around.fold (injected_for p ctx msg) (message_headers msg.headers)
              key others,
        )

-- Close closes the client once: a second Close returns the error of the first, closes nothing and
-- changes nothing, and after a Close of a producer that was open nothing is sent any more: Publish
-- returns -1, -1 and the error that the producer is closed.
pub close_once :
    {E P : Type 0} (around : Surroundings E P) (p : KafkaProducer E) (first second : Option E)
    (ctx : GoContext) (msg : Message P)
    → p.close_done ≡ false
    → ((close second (close first p).producer).error ≡ (close first p).error)
      × ((close second (close first p).producer).producer ≡ (close first p).producer)
      × ((close second (close first p).producer).client_closed ≡ false)
      × ((publish around (some (close first p).producer) ctx msg).error ≡ some producer_closed)
      × ((publish around (some (close first p).producer) ctx msg).sent ≡ none)
      × ((publish around (some (close first p).producer) ctx msg).partition ≡ negsuc 0)
unfolding close publish
close_once around p first second ctx msg new = ground arith
