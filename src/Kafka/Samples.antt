-- ===== src/Kafka/Samples.antt =====
-- The theorems on the producer and on the consumer group applied to a small process.
use Prim.Native.Char.{Char}
use lunaship.Base.{
  ◌≤◌, ◌⊎◌, inl, String, true, false, none, some, List, [], ◌∷◌, ◌≡◌, ◌≢◌, refl, All,
}
use lunaship.Base.Int.{pos}
use lunaship.Base.Scan.{equal_fold, fold_text}
use lunaship.Telemetry.{GoContext, SpanContext, Otel}
use lunaship.Kafka.Headers.{RecordHeader, get_header}
use lunaship.Kafka.Metadata.{utf8}
use lunaship.Kafka.Producer.{
  KafkaProducer, Message, ProducerMessage, Surroundings, publish, message_headers,
}
use lunaship.Kafka.Producer.Laws.{injected_for, publish-carries_trace}
use lunaship.Kafka.Group.{
  started, stopping, checking, panicked, read_ready, receive_ready, stop, starting, setup,
  consume_ends, check_continues, Group, consuming, joining, awaiting, done, Step, cancel, Reach,
  here, next,
}
use lunaship.Kafka.Group.Session.{set_up, set_up-fine}
use lunaship.Kafka.Group.Ends.{at_once, then, CanMove, stopping-ends}
use lunaship.Kafka.Group.Laws.{closed_early, early_close-hangs}
use lunaship.Kafka.Producer.Race
use lunaship.Kafka.Producer.Race.{Shared, unshared, publish-panics}

abbrev same_char : Char → Char
same_char c = c

abbrev new_span : SpanContext
new_span = record { is_valid = true; trace_id = "t1"; span_id = "s2"; sampled = true }

abbrev tracer : Otel (List RecordHeader)
tracer = record {
  extract = λ ctx hs. ctx;
  injected = λ ctx. ("traceparent", ctx.span.span_id) ∷ ("tracestate", ctx.span.trace_id) ∷ [];
  start = λ name span ctx. new_span;
}

abbrev around : Surroundings String String
around = record {
  fold = same_char;
  otel = tracer;
  env = λ name. "";
  app = "shop";
  error_text = λ e. e;
  type_name = λ e. "string";
  send = λ m. record { partition = pos 3; offset = pos 7; error = none };
  duration = pos 5;
}

abbrev producer : KafkaProducer String
producer = record {
  brokers = "b1:9092";
  topic = "orders";
  client_open = true;
  close_done = false;
  close_error = none;
}

abbrev context : GoContext
context = record {
  logged = record {
    fields = [];
    trace_id = none;
    span_id = none;
    parent_span_id = none;
    sampled = none;
  };
  span = record { is_valid = false; trace_id = ""; span_id = ""; sampled = false };
}

-- The caller gives a header under a key that is injected, and one under another key.
abbrev message : Message String
message = record {
  key = utf8 "k";
  headers = ("traceparent", "old") ∷ ("shop", "north") ∷ [];
  payload = "p";
}

far : equal_fold same_char "tracestate" "traceparent" ≡ false
unfolding fold_text
far = refl

other : equal_fold same_char "traceparent" "shop" ≡ false
unfolding fold_text
other = refl

other_state : equal_fold same_char "tracestate" "shop" ≡ false
unfolding fold_text
other_state = refl

publish-carries_trace_example :
    (m : ProducerMessage String) × ((publish around (some producer) context message).sent ≡ some m)
    × All
        (λ q. get_header same_char m.headers q.0 ≡ q.1)
        (injected_for around producer context message)
    × (get_header same_char m.headers "shop"
        ≡ get_header same_char (message_headers message.headers) "shop")
publish-carries_trace_example =
    publish-carries_trace around producer context message "shop" refl ((far, tt), (tt, tt))
      (other, (other_state, tt))

-- A signal has come while the first session is under way.
abbrev signalled : Group
signalled = record {
  loop = consuming;
  caller = stopping;
  channel = 0;
  ready = 0 ∷ [];
  cancelled = true;
  client_closed = false;
}

signalled-Reach : Reach started signalled
signalled-Reach =
    next (next (next (next here (read_ready refl)) (setup refl)) (receive_ready 0 refl (inl refl)))
      (stop refl)

-- The session has ended, and the goroutine is about to look at the context.
abbrev session_over : Group
session_over = record signalled { loop = checking }

stopping-ends_example :
    (1 ≤ 4)
    × ((session_over.caller ≡ done) ⊎ ((session_over.loop ≡ panicked) ⊎ CanMove session_over))
stopping-ends_example =
    stopping-ends signalled session_over 1 signalled-Reach refl
      (then at_once (consume_ends refl) tt)

-- The caller waits for the first channel, which is open.
abbrev waiting : Group
waiting = record {
  loop = joining;
  caller = awaiting 0;
  channel = 0;
  ready = [];
  cancelled = false;
  client_closed = false;
}

-- The context is cancelled after the goroutine has returned.
early_close-hangs_example :
    Step waiting (closed_early waiting)
    × ((record (closed_early waiting) { cancelled = true }).caller ≢ done)
early_close-hangs_example =
    early_close-hangs waiting (record (closed_early waiting) { cancelled = true }) refl refl
      (λ i. elim i [ ]) (next here cancel)

publish-panics_example :
    (w : Shared String String) × Race.Reach around (unshared around producer) w
    × (w.returned ≡ none ∷ [])
publish-panics_example = publish-panics around producer context message none refl refl

-- The group before its second session: the first one has ended, and the context is not cancelled.
abbrev rejoining : Group
rejoining = record {
  loop = joining;
  caller = starting;
  channel = 1;
  ready = 0 ∷ [];
  cancelled = false;
  client_closed = false;
}

set_up-fine_example :
    set_up rejoining ≡ some (record rejoining { loop = consuming; ready = 1 ∷ 0 ∷ [] })
set_up-fine_example =
    set_up-fine rejoining
      (next (next (next here (setup refl)) (consume_ends refl)) (check_continues refl refl)) refl
