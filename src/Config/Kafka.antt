-- ===== src/Config/Kafka.antt =====
-- kafka/config.go: producers and consumers.
use Prim.Native.Char.{Char}
use Prim.Native.String.{◌++◌ as ◌<>◌}
use lunaship.Base.{
  ℕ, suc, String, Bool, true, false, not, List, [], ◌∷◌, ◌≡◌, refl, All, arith, map, ◌≢◌,
}
use lunaship.Base.Text.{trim_space, to_lower, is_empty, contains, itoa, str_or_default}
use lunaship.ConfigParse.{Problems, trim_string_slice}
use lunaship.ConfigParse.Keys.{ordered_keys}
use lunaship.Config.Report.{report, IsClean, report-IsClean, one_of, of_not}

pub record ProducerConfig : Type 0 where
  pub brokers : List String
  pub topic : String
  pub acks : String

pub record ConsumerConfig : Type 0 where
  pub brokers : List String
  pub topic : String
  pub consumer_group : String

pub record KafkaConfig : Type 0 where
  pub producer : List (String × ProducerConfig)
  pub consumer : List (String × ConsumerConfig)

unfoldable pub default_kafka_config : KafkaConfig
default_kafka_config = record { producer = []; consumer = [] }

abbrev pub valid_kafka_acks : List String
valid_kafka_acks = "0" ∷ "1" ∷ "all" ∷ []

abbrev blank : String → Bool
blank s = is_empty (trim_space s)

module _ (lower : Char → Char) where
  unfoldable pub normalize_producer : ProducerConfig → ProducerConfig
  normalize_producer i = record {
    brokers = trim_string_slice i.brokers;
    topic = trim_space i.topic;
    acks = str_or_default (to_lower lower (trim_space i.acks)) "all";
  }

  unfoldable pub normalize_consumer : ConsumerConfig → ConsumerConfig
  normalize_consumer i = record {
    brokers = trim_string_slice i.brokers;
    topic = trim_space i.topic;
    consumer_group = trim_space i.consumer_group;
  }

  unfoldable pub normalize_kafka : KafkaConfig → KafkaConfig
  normalize_kafka c = record {
    producer = map (λ e. (e.0, normalize_producer e.1)) c.producer;
    consumer = map (λ e. (e.0, normalize_consumer e.1)) c.consumer;
  }

-- The loop of validateBrokers.
unfoldable pub validate_broker_list : ℕ → List String → String → Problems → Problems
validate_broker_list index [] path problems = problems
validate_broker_list index (broker ∷ rest) path problems =
    validate_broker_list (suc index) rest path
      (report (blank broker) (path <> "[" <> itoa index <> "]") "must not be empty" problems)

unfoldable pub validate_brokers : List String → String → Problems → Problems
validate_brokers [] path problems = report true path "must contain at least one broker" problems
validate_brokers (broker ∷ rest) path problems =
    validate_broker_list 0 (broker ∷ rest) path problems

-- The body of the loop over the producers.
unfoldable pub validate_producer : String → ProducerConfig → Problems → Problems
validate_producer name i problems =
    report (not (contains valid_kafka_acks i.acks)) ("kafka.producer." <> name <> ".acks")
      (one_of (ordered_keys valid_kafka_acks))
      (report (blank i.topic) ("kafka.producer." <> name <> ".topic") "is required"
        (validate_brokers i.brokers ("kafka.producer." <> name <> ".brokers") problems))

unfoldable pub validate_producers : List (String × ProducerConfig) → Problems → Problems
validate_producers [] problems = problems
validate_producers ((name, i) ∷ rest) problems =
    validate_producers rest (validate_producer name i problems)

-- The body of the loop over the consumers.
unfoldable pub validate_consumer : String → ConsumerConfig → Problems → Problems
validate_consumer name i problems =
    report (blank i.consumer_group) ("kafka.consumer." <> name <> ".consumer_group") "is required" (
      report (blank i.topic) ("kafka.consumer." <> name <> ".topic") "is required"
        (validate_brokers i.brokers ("kafka.consumer." <> name <> ".brokers") problems))

unfoldable pub validate_consumers : List (String × ConsumerConfig) → Problems → Problems
validate_consumers [] problems = problems
validate_consumers ((name, i) ∷ rest) problems =
    validate_consumers rest (validate_consumer name i problems)

unfoldable pub validate_kafka : KafkaConfig → Problems → Problems
validate_kafka c problems = validate_consumers c.consumer (validate_producers c.producer problems)

-- At least one broker, and none of them blank.
abbrev pub AreBrokers : List String → Type 0
AreBrokers brokers = (brokers ≢ []) × All (λ b. blank b ≡ false) brokers

pub record IsValidProducer (i : ProducerConfig) : Type 0 where
  pub brokers : AreBrokers i.brokers
  pub topic : blank i.topic ≡ false
  pub acks : contains valid_kafka_acks i.acks ≡ true

pub record IsValidConsumer (i : ConsumerConfig) : Type 0 where
  pub brokers : AreBrokers i.brokers
  pub topic : blank i.topic ≡ false
  pub group : blank i.consumer_group ≡ false

pub record IsValidKafka (c : KafkaConfig) : Type 0 where
  pub producers : All (λ e. IsValidProducer e.1) c.producer
  pub consumers : All (λ e. IsValidConsumer e.1) c.consumer

broker_list_sound :
    (index : ℕ) (bs : List String) (path : String) (problems : Problems)
    → IsClean (validate_broker_list index bs path problems)
    → IsClean problems × All (λ b. blank b ≡ false) bs
unfolding validate_broker_list
broker_list_sound index [] path problems e = (e, tt)
broker_list_sound index (b ∷ bs) path problems e =
    let (e₁, others) = broker_list_sound (suc index) bs path _ e in
    let (e₂, one) = (report-IsClean _ _ _ _).0 e₁ in (e₂, (one, others))

broker_list_complete :
    (index : ℕ) (bs : List String) (path : String) (problems : Problems)
    → IsClean problems
    → All (λ b. blank b ≡ false) bs
    → IsClean (validate_broker_list index bs path problems)
unfolding validate_broker_list
broker_list_complete index [] path problems e v = e
broker_list_complete index (b ∷ bs) path problems e v =
    broker_list_complete (suc index) bs path _ (rw (v.0, e)) v.1

brokers_sound :
    (bs : List String) (path : String) (problems : Problems)
    → IsClean (validate_brokers bs path problems)
    → IsClean problems × AreBrokers bs
unfolding validate_brokers
brokers_sound [] path problems e =
    absurd (ground (arith, (report-IsClean true path _ problems).0 e))
brokers_sound (b ∷ bs) path problems e =
    let (e₁, fine) = broker_list_sound 0 (b ∷ bs) path problems e in (e₁, ((λ absent. cc), fine))

brokers_complete :
    (bs : List String) (path : String) (problems : Problems)
    → IsClean problems
    → AreBrokers bs
    → IsClean (validate_brokers bs path problems)
unfolding validate_brokers
brokers_complete [] path problems e v = absurd (v.0 refl)
brokers_complete (b ∷ bs) path problems e v = broker_list_complete 0 (b ∷ bs) path problems e v.1

producers_sound :
    (is : List (String × ProducerConfig)) (problems : Problems)
    → IsClean (validate_producers is problems)
    → IsClean problems × All (λ e. IsValidProducer e.1) is
unfolding validate_producers validate_producer
producers_sound [] problems e = (e, tt)
producers_sound ((name, i) ∷ rest) problems e =
    let (e₁, others) = producers_sound rest (validate_producer name i problems) e in
    let (e₂, acks) = (report-IsClean _ _ _ _).0 e₁ in
    let (e₃, topic) = (report-IsClean _ _ _ _).0 e₂ in
    let (e₄, brokers) = brokers_sound i.brokers _ _ e₃ in
    (e₄, (record { brokers = brokers; topic = topic; acks = of_not _ acks }, others))

producers_complete :
    (is : List (String × ProducerConfig)) (problems : Problems)
    → IsClean problems
    → All (λ e. IsValidProducer e.1) is
    → IsClean (validate_producers is problems)
unfolding validate_producers validate_producer
producers_complete [] problems e v = e
producers_complete ((name, i) ∷ rest) problems e v =
    producers_complete rest (validate_producer name i problems)
      (rw (
        v.0.acks,
        v.0.topic,
        brokers_complete i.brokers ("kafka.producer." <> name <> ".brokers") problems e v.0.brokers,
      ))
      v.1

consumers_sound :
    (is : List (String × ConsumerConfig)) (problems : Problems)
    → IsClean (validate_consumers is problems)
    → IsClean problems × All (λ e. IsValidConsumer e.1) is
unfolding validate_consumers validate_consumer
consumers_sound [] problems e = (e, tt)
consumers_sound ((name, i) ∷ rest) problems e =
    let (e₁, others) = consumers_sound rest (validate_consumer name i problems) e in
    let (e₂, group) = (report-IsClean _ _ _ _).0 e₁ in
    let (e₃, topic) = (report-IsClean _ _ _ _).0 e₂ in
    let (e₄, brokers) = brokers_sound i.brokers _ _ e₃ in
    (e₄, (record { brokers = brokers; topic = topic; group = group }, others))

consumers_complete :
    (is : List (String × ConsumerConfig)) (problems : Problems)
    → IsClean problems
    → All (λ e. IsValidConsumer e.1) is
    → IsClean (validate_consumers is problems)
unfolding validate_consumers validate_consumer
consumers_complete [] problems e v = e
consumers_complete ((name, i) ∷ rest) problems e v =
    consumers_complete rest (validate_consumer name i problems)
      (rw (
        v.0.group,
        v.0.topic,
        brokers_complete i.brokers ("kafka.consumer." <> name <> ".brokers") problems e v.0.brokers,
      ))
      v.1

pub validate_kafka-IsValidKafka :
    (c : KafkaConfig) (problems : Problems)
    → IsClean (validate_kafka c problems)
    → IsClean problems × IsValidKafka c
unfolding validate_kafka
validate_kafka-IsValidKafka c problems e =
    let (e₁, consumers) = consumers_sound c.consumer _ e in
    let (e₂, producers) = producers_sound c.producer _ e₁ in
    (e₂, record { producers = producers; consumers = consumers })

pub IsValidKafka-validate_kafka :
    (c : KafkaConfig) (problems : Problems)
    → IsClean problems
    → IsValidKafka c
    → IsClean (validate_kafka c problems)
unfolding validate_kafka
IsValidKafka-validate_kafka c problems e v =
    consumers_complete c.consumer _ (producers_complete c.producer problems e v.producers)
      v.consumers
