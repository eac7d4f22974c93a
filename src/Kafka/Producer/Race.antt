-- ===== src/Kafka/Producer/Race.antt =====
-- kafka/producer.go: Publish and Close when they overlap. Publish reads the client twice: for its check, and
-- again for SendMessage; another call may come between the two.
use lunaship.Base.{
  true, false, Option, none, some, List, [], ◌∷◌, ◌++◌, ◌≡◌, refl, ◌≢◌, arith, Bool-cases, inl, inr,
  ap, subst, All,
}
use lunaship.Telemetry.{GoContext}
use lunaship.Kafka.Producer.{
  KafkaProducer, Message, Published, Surroundings, publish_open, publish, close,
}

-- The producer, the calls of Publish that have passed the check, and what the calls have returned, the
-- last one first; the panic of a method call on the nil client is held as `none`.
pub record Shared (E P : Type 0) : Type 0 where
  pub producer : KafkaProducer E
  pub checked : List (GoContext × Message P)
  pub returned : List (Option (Published E P))

module _ {E P : Type 0} (around : Surroundings E P) where
  -- Publish from its check on, by the client that it then reads.
  unfoldable pub send_message : KafkaProducer E → GoContext × Message P → Option (Published E P)
  send_message p (ctx, msg) = elim p.client_open [
    | true ↦ some (publish_open around p ctx msg)
    | false ↦ none
  ]

  pub data Step (w : Shared E P) : Shared E P → Type 0 where
    refuse :
        (ctx : GoContext) (msg : Message P)
        → w.producer.client_open ≡ false
        → Step w
            (record w { returned = some (publish around (some w.producer) ctx msg) ∷ w.returned })
    check :
        (ctx : GoContext) (msg : Message P)
        → w.producer.client_open ≡ true
        → Step w (record w { checked = (ctx, msg) ∷ w.checked })
    send :
        (call : GoContext × Message P) (before after : List (GoContext × Message P))
        → w.checked ≡ before ++ call ∷ after
        → Step w (record w {
          checked = before ++ after;
          returned = send_message w.producer call ∷ w.returned;
        })
    close_client :
        (answer : Option E) → Step w (record w { producer = (close answer w.producer).producer })

  pub data Reach (w : Shared E P) : Shared E P → Type 0 where
    here : Reach w w
    next : {u v : Shared E P} → Reach w u → Step u v → Reach w v

  abbrev pub unshared : KafkaProducer E → Shared E P
  unshared p = record { producer = p; checked = []; returned = [] }

  -- A Publish that no Close overlaps is a sequence of these steps, and returns what publish does.
  publish-Reach :
      (p : KafkaProducer E) (ctx : GoContext) (msg : Message P)
      → Reach
          (unshared p)
          (record (unshared p) { returned = some (publish around (some p) ctx msg) ∷ [] })
  unfolding send_message publish
  publish-Reach p ctx msg = elim (Bool-cases p.client_open) [
    | inl open_ ↦
        subst (λ r. Reach (unshared p) (record (unshared p) { returned = r ∷ [] }))
          (rw (open_, send_message, publish) refl)
          (next (next here (check ctx msg open_)) (send (ctx, msg) [] [] refl))
    | inr closed ↦ next here (refuse ctx msg closed)
  ]

  -- While the client is there, no call has panicked.
  abbrev NoPanic : Shared E P → Type 0
  NoPanic w = w.producer.client_open ≡ true → All (λ r. r ≢ none) w.returned

  Step-NoPanic : {w u : Shared E P} → Step w u → NoPanic w → NoPanic u
  unfolding send_message close
  Step-NoPanic (refuse ctx msg closed) h = λ open_. absurd (ground arith)
  Step-NoPanic (check ctx msg open_) h = h
  Step-NoPanic (send (ctx, msg) before after e) h = λ open_. (rw (open_) (λ n. cc), h open_)
  Step-NoPanic {w} (close_client answer) h = λ open_. h (ground arith)

  -- However the calls of Publish and Close overlap, no Publish has panicked as long as the client has not
  -- been closed.
  pub Reach-NoPanic :
      {p : KafkaProducer E} {w : Shared E P}
      → Reach (unshared p) w
      → w.producer.client_open ≡ true
      → All (λ r. r ≢ none) w.returned
  Reach-NoPanic here open_ = tt
  Reach-NoPanic (next r s) open_ = Step-NoPanic s (Reach-NoPanic r) open_

  close-closes :
      (p : KafkaProducer E) (answer : Option E)
      → p.client_open ≡ true
      → p.close_done ≡ false
      → (close answer p).producer.client_open ≡ false
  unfolding close
  close-closes p answer open_ first = ground arith

  send_message-nil :
      (p : KafkaProducer E) (call : GoContext × Message P)
      → p.client_open ≡ false
      → send_message p call ≡ none
  unfolding send_message
  send_message-nil p (ctx, msg) closed = rw (closed, send_message) refl

  -- If a Close comes between the check of a Publish and its SendMessage, the Publish calls a method of the
  -- nil client, whatever the client's Close has answered: from an open producer such a panic is reached.
  pub publish-panics :
      (p : KafkaProducer E) (ctx : GoContext) (msg : Message P) (answer : Option E)
      → p.client_open ≡ true
      → p.close_done ≡ false
      → (w : Shared E P) × Reach (unshared p) w × (w.returned ≡ none ∷ [])
  unfolding close
  publish-panics p ctx msg answer open_ first =
      let begun = next (next here (check ctx msg open_)) (close_client answer) in
      (
        _,
        next begun (send (ctx, msg) [] [] refl),
        ap (λ o. o ∷ []) (send_message-nil _ (ctx, msg) (close-closes p answer open_ first)),
      )
