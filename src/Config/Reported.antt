-- ===== src/Config/Reported.antt =====
-- configparse/helpers.go and the sections' Validate methods: whether the report is the nil pointer.
use lunaship.Base.{ℕ, suc, String, Bool, true, none, List, [], ◌∷◌, ◌≡◌, refl, ◌≢◌, arith}
use lunaship.ConfigParse.{Problems, add, add_unused_paths, validate_port, validate_duration}
use lunaship.Base.Text.{contains}
use lunaship.Config.Report.{report, IsClean, report-IsClean}
use lunaship.Config.Instances.{
  MysqlConfig, MysqlInstance, RedisInstance, validate_mysql, validate_mysql_instances,
  validate_mysql_instance, validate_redis_instances, validate_redis_instance,
}
use lunaship.Config.Kafka.{
  ProducerConfig, ConsumerConfig, validate_broker_list, validate_brokers, validate_producers,
  validate_producer, validate_consumers, validate_consumer,
}

-- The report is there: the pointer to it is not nil.
abbrev pub IsThere : Problems → Type 0
IsThere problems = problems ≢ none

pub report-IsThere :
    (failed : Bool) (path message : String) (problems : Problems)
    → IsThere problems
    → IsThere (report failed path message problems)
unfolding add
report-IsThere failed path message problems h = ground arith

mysql_instance-IsThere :
    (name : String) (i : MysqlInstance) (problems : Problems)
    → IsThere problems
    → IsThere (validate_mysql_instance name i problems)
unfolding validate_mysql_instance validate_port
mysql_instance-IsThere name i problems h = search report-IsThere

mysql_instances-IsThere :
    (is : List (String × MysqlInstance)) (problems : Problems)
    → IsThere problems
    → IsThere (validate_mysql_instances is problems)
unfolding validate_mysql_instances
mysql_instances-IsThere [] problems h = h
mysql_instances-IsThere ((name, i) ∷ rest) problems h =
    mysql_instances-IsThere rest (validate_mysql_instance name i problems)
      (mysql_instance-IsThere name i problems h)

redis_instance-IsThere :
    (name : String) (i : RedisInstance) (problems : Problems)
    → IsThere problems
    → IsThere (validate_redis_instance name i problems)
unfolding validate_redis_instance validate_port
redis_instance-IsThere name i problems h = search report-IsThere

pub redis_instances-IsThere :
    (is : List (String × RedisInstance)) (problems : Problems)
    → IsThere problems
    → IsThere (validate_redis_instances is problems)
unfolding validate_redis_instances
redis_instances-IsThere [] problems h = h
redis_instances-IsThere ((name, i) ∷ rest) problems h =
    redis_instances-IsThere rest (validate_redis_instance name i problems)
      (redis_instance-IsThere name i problems h)

pub mysql-IsThere :
    (c : MysqlConfig) (problems : Problems) → IsThere problems → IsThere (validate_mysql c problems)
unfolding validate_mysql validate_duration
mysql-IsThere c problems h = search (report-IsThere, mysql_instances-IsThere) fits 20000 depth 9

broker_list-IsThere :
    (index : ℕ) (bs : List String) (path : String) (problems : Problems)
    → IsThere problems
    → IsThere (validate_broker_list index bs path problems)
unfolding validate_broker_list
broker_list-IsThere index [] path problems h = h
broker_list-IsThere index (b ∷ bs) path problems h =
    broker_list-IsThere (suc index) bs path _ (report-IsThere _ _ _ _ h)

brokers-IsThere :
    (bs : List String) (path : String) (problems : Problems)
    → IsThere problems
    → IsThere (validate_brokers bs path problems)
unfolding validate_brokers
brokers-IsThere [] path problems h = report-IsThere true _ _ problems h
brokers-IsThere (b ∷ bs) path problems h = broker_list-IsThere 0 (b ∷ bs) path problems h

producer-IsThere :
    (name : String) (i : ProducerConfig) (problems : Problems)
    → IsThere problems
    → IsThere (validate_producer name i problems)
unfolding validate_producer
producer-IsThere name i problems h = search (report-IsThere, brokers-IsThere)

pub producers-IsThere :
    (is : List (String × ProducerConfig)) (problems : Problems)
    → IsThere problems
    → IsThere (validate_producers is problems)
unfolding validate_producers
producers-IsThere [] problems h = h
producers-IsThere ((name, i) ∷ rest) problems h =
    producers-IsThere rest (validate_producer name i problems) (producer-IsThere name i problems h)

consumer-IsThere :
    (name : String) (i : ConsumerConfig) (problems : Problems)
    → IsThere problems
    → IsThere (validate_consumer name i problems)
unfolding validate_consumer
consumer-IsThere name i problems h = search (report-IsThere, brokers-IsThere)

pub consumers-IsThere :
    (is : List (String × ConsumerConfig)) (problems : Problems)
    → IsThere problems
    → IsThere (validate_consumers is problems)
unfolding validate_consumers
consumers-IsThere [] problems h = h
consumers-IsThere ((name, i) ∷ rest) problems h =
    consumers-IsThere rest (validate_consumer name i problems) (consumer-IsThere name i problems h)

pub unused_paths-IsThere :
    (paths : List String) (problems : Problems)
    → IsThere problems
    → IsThere (add_unused_paths problems paths [])
unfolding add_unused_paths add contains
unused_paths-IsThere [] problems h = h
unused_paths-IsThere (p ∷ paths) problems h =
    unused_paths-IsThere paths (add p "unknown field" problems) (report-IsThere true p _ problems h)

pub unused_paths-IsClean :
    (paths : List String) (problems : Problems)
    → IsClean (add_unused_paths problems paths [])
    → IsClean problems × (paths ≡ [])
unfolding add_unused_paths add contains
unused_paths-IsClean [] problems e = (e, refl)
unused_paths-IsClean (p ∷ paths) problems e =
    let (e₁, none_left) = unused_paths-IsClean paths (add p "unknown field" problems) e in
    absurd (ground (arith, (report-IsClean true p "unknown field" problems).0 e₁))
