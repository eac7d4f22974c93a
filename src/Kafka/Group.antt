-- ===== src/Kafka/Group.antt =====
-- kafka/consumer.go: KafkaConsumer.Start as a step relation. The goroutine that consumes, the caller
-- that waits, the consumer group and the signals are interleaved; a channel `ready` is known by the
-- number of channels made before it.
pub mod Laws
pub mod Ends
pub mod Session
use lunaship.Base.{
  ℕ, zero, suc, Bool, true, false, List, [], ◌∷◌, ◌≡◌, ◌≢◌, ◌⊎◌, In, Option, none, some, Result, ok,
  err,
}

-- Where the goroutine is: in Consume before and after the session's Setup, behind Consume, returned,
-- or in the panic that ends the process.
pub data Loop : Type 0 where
  joining consuming checking returned panicked : Loop

-- Where the caller is: before `<-consumer.ready`, waiting for a channel, in the loop on the signals,
-- behind cancel in wg.Wait, or returned.
pub data Caller : Type 0 where
  starting : Caller
  awaiting : (channel : ℕ) → Caller
  serving stopping done : Caller

-- `channel` is the number of consumer.ready, `ready` tells which channels are closed.
pub record Group : Type 0 where
  pub loop : Loop
  pub caller : Caller
  pub channel : ℕ
  pub ready : List ℕ
  pub cancelled : Bool
  pub client_closed : Bool

-- The state in which the goroutine is started.
abbrev pub started : Group
started = record {
  loop = joining;
  caller = starting;
  channel = 0;
  ready = [];
  cancelled = false;
  client_closed = false;
}

pub data Step (g : Group) : Group → Type 0 where
  -- The client calls Setup once it has joined; Setup closes the channel.
  setup : g.loop ≡ joining → Step g (record g { loop = consuming; ready = g.channel ∷ g.ready })
  -- Consume returns: without an error, after a session or without one; because the group is closed;
  -- or with another error.
  consume_ends : g.loop ≡ consuming → Step g (record g { loop = checking })
  consume_ends_early : g.loop ≡ joining → Step g (record g { loop = checking })
  consume_closed : (g.loop ≡ joining) ⊎ (g.loop ≡ consuming) → Step g (record g { loop = returned })
  consume_fails : (g.loop ≡ joining) ⊎ (g.loop ≡ consuming) → Step g (record g { loop = panicked })
  -- ctx.Err() behind Consume: the end of the goroutine, or a new channel and the next round.
  check_ends : g.loop ≡ checking → g.cancelled ≡ true → Step g (record g { loop = returned })
  check_continues :
      g.loop ≡ checking
      → g.cancelled ≡ false
      → Step g (record g { loop = joining; channel = suc g.channel })
  -- The caller reads consumer.ready, and then receives from that channel once it is closed.
  read_ready : g.caller ≡ starting → Step g (record g { caller = awaiting g.channel })
  receive_ready :
      (channel : ℕ)
      → g.caller ≡ awaiting channel
      → In channel g.ready
      → Step g (record g { caller = serving })
  -- The context that was passed is cancelled, at any time.
  cancel : Step g (record g { cancelled = true })
  -- The context is done or a signal has come: cancel is called.
  stop : g.caller ≡ serving → Step g (record g { caller = stopping; cancelled = true })
  -- wg.Wait returns once the goroutine has, and the client is closed.
  finish :
      g.caller ≡ stopping
      → g.loop ≡ returned
      → Step g (record g { caller = done; client_closed = true })

pub data Reach (g : Group) : Group → Type 0 where
  here : Reach g g
  next : {h k : Group} → Reach g h → Step h k → Reach g k

-- What Start does before the goroutine: the client is made, and the handler is asked for. The first
-- component is the error, the second tells whether a client is left open behind it.
pub data StartError (E : Type 0) : Type 0 where
  client_failed : E → StartError E
  handler_is_nil : StartError E

unfoldable pub prepare :
    {E : Type 0} → Option E → (has_consumer : Bool) → Option (StartError E) × Bool
prepare (some e) has_consumer = (some (client_failed e), false)
prepare none false = (some handler_is_nil, true)
prepare none true = (none, true)
