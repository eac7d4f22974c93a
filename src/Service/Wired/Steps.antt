-- ===== src/Service/Wired/Steps.antt =====
-- service/setup.go: what each Init function of the default modules leaves of the configuration and of the
-- globals, and what those of the log and of Redis make.
use lunaship.Base.{
  String, false, Option, none, some, ◌≡◌, refl, Result, ok, err, arith, ap, ◌∙◌, sym, Result-cases,
  inl, inr, subst,
}
use lunaship.Config.Instances.{RedisInstance}
use lunaship.Config.Load.{AppConfig, load}
use lunaship.Mysql.{MysqlGlobals}
use lunaship.Redis.Client.{RedisGlobals, client_of}
use lunaship.Redis.Once.{init_redis-once, init_redis-reached}
use lunaship.Service.Bootstrap.{
  BootstrapState, InitError, init_config, init_runtime_metadata, init_log_module,
  init_tracing_module, init_redis_module, init_mysql_module, init_kafka_module, init_metrics_module,
  init_pprof, init_pprof_module, start_selected,
}
use lunaship.Service.Clients.{default_redis_retry, Pool, redis_options, start_redis}
use lunaship.Service.Instance.{Ambiguous, select_bootstrap_instance}
use lunaship.Service.Settings.{log_level_from_config}
use lunaship.Service.Wired.{World, Outside, wired, init_tracing_in, init_redis_in, init_mysql_in}

module _ {B S D F : Type 0} (out : Outside B S D F) where
  abbrev State : Type 0
  State = BootstrapState (World S D F) F

  -- The globals of MySQL with the limits of the pool.
  abbrev pub database_of : World S D F → MysqlGlobals D × Option Pool
  database_of w = (w.mysql, w.pool)

  -- The configuration and the globals of the log, of Redis and of MySQL are left alone.
  pub record IsKept (s s' : State) : Type 0 where
    pub cfg : s'.cfg ≡ s.cfg
    pub log : s'.world.log ≡ s.world.log
    pub redis : s'.world.redis ≡ s.world.redis
    pub database : database_of s'.world ≡ database_of s.world

  pub metadata-IsKept : (s : State) → IsKept s (init_runtime_metadata (wired out) s).1
  unfolding init_runtime_metadata
  metadata-IsKept s = record { cfg = refl; log = refl; redis = refl; database = refl }

  pub tracing-IsKept : (s : State) → IsKept s (init_tracing_module (wired out) s).1
  unfolding init_tracing_module init_tracing_in
  tracing-IsKept s = ground arith

  pub kafka-IsKept : (s : State) → IsKept s (init_kafka_module (wired out) s).1
  unfolding init_kafka_module
  kafka-IsKept s = record { cfg = refl; log = refl; redis = refl; database = refl }

  pub metrics-IsKept : (s : State) → IsKept s (init_metrics_module (wired out) s).1
  unfolding init_metrics_module
  metrics-IsKept s = record { cfg = refl; log = refl; redis = refl; database = refl }

  pub pprof-IsKept : (s : State) → IsKept s (init_pprof_module (wired out) s).1
  unfolding init_pprof_module init_pprof
  pprof-IsKept s = ground arith

  -- The globals of Redis after the module: nothing has changed if no instance is configured; else the
  -- global client is that of the selected instance, and its last ping was answered.
  abbrev pub RedisStarted :
      Result Ambiguous (Option (String × RedisInstance)) → RedisGlobals S → RedisGlobals S → Type 0
  RedisStarted (err e) g g' = ⊥
  RedisStarted (ok none) g g' = g' ≡ g
  RedisStarted (ok (some (name, i))) g g' =
      (g'.client ≡ some (client_of out.env out.ping (some (redis_options i))))
      × ((s : S) × (out.ping s ≡ (none, g'.server)))

  start_redis-RedisStarted :
      (name : String) (i : RedisInstance) (g : RedisGlobals S)
      → g.done ≡ false
      → (start_redis out.env out.ping i g).0 ≡ none
      → RedisStarted (ok (some (name, i))) g (start_redis out.env out.ping i g).1
  unfolding start_redis
  start_redis-RedisStarted name i g new fine = (
    (init_redis-once out.env out.ping (some (redis_options i)) none default_redis_retry 0 g new).0,
    init_redis-reached out.env out.ping (some (redis_options i)) default_redis_retry g new fine,
  )

  start_selected-RedisStarted :
      (chosen : Result Ambiguous (Option (String × RedisInstance))) (s : State)
      → s.world.redis.done ≡ false
      → (start_selected (wired out) chosen (init_redis_in out) s).0 ≡ none
      → RedisStarted chosen s.world.redis
          (start_selected (wired out) chosen (init_redis_in out) s).1.world.redis
  unfolding init_redis_in
  start_selected-RedisStarted (err e) s new fine = cc
  start_selected-RedisStarted (ok none) s new fine = refl
  start_selected-RedisStarted (ok (some (name, i))) s new fine =
      start_redis-RedisStarted name i s.world.redis new (ground arith)

  pub redis-starts :
      (cfg : AppConfig F) (s : State)
      → s.cfg ≡ some cfg
      → s.world.redis.done ≡ false
      → (init_redis_module (wired out) s).0 ≡ none
      → RedisStarted
          (select_bootstrap_instance cfg.redis.instances "redis")
          s.world.redis
          (init_redis_module (wired out) s).1.world.redis
  unfolding init_redis_module
  redis-starts cfg s there new fine =
      let same : init_redis_module (wired out) s
          ≡ start_selected (wired out) (select_bootstrap_instance cfg.redis.instances "redis")
              (init_redis_in out) s =
        ap
          (λ o. elim o as (λ o. Option InitError × State) [
            | none ↦ (none, s)
            | some cfg ↦
                start_selected (wired out) (select_bootstrap_instance cfg.redis.instances "redis")
                  (init_redis_in out) s
          ])
          there in
      subst
        (λ r.
          RedisStarted (select_bootstrap_instance cfg.redis.instances "redis") s.world.redis
            r.1.world.redis)
        (sym same)
        (start_selected-RedisStarted (select_bootstrap_instance cfg.redis.instances "redis") s new
          (ap (λ r. r.0) (sym same) ∙ fine))

  -- An Init function of a client starts it: what it leaves of the rest.
  pub record IsKeptBy (s s' : State) : Type 0 where
    pub cfg : s'.cfg ≡ s.cfg
    pub log : s'.world.log ≡ s.world.log

  pub redis-IsKeptBy : (s : State) → IsKeptBy s (init_redis_module (wired out) s).1
  unfolding init_redis_module init_redis_in
  redis-IsKeptBy s = ground arith

  pub redis-keeps_mysql :
      (s : State) → database_of (init_redis_module (wired out) s).1.world ≡ database_of s.world
  unfolding init_redis_module init_redis_in
  redis-keeps_mysql s = ground arith

  pub mysql-IsKeptBy : (s : State) → IsKeptBy s (init_mysql_module (wired out) s).1
  unfolding init_mysql_module init_mysql_in
  mysql-IsKeptBy s = ground arith

  pub mysql-keeps_redis :
      (s : State) → (init_mysql_module (wired out) s).1.world.redis ≡ s.world.redis
  unfolding init_mysql_module init_mysql_in
  mysql-keeps_redis s = ground arith

  pub config-loads :
      (s : State)
      → (init_config (wired out) s).0 ≡ none
      → (cfg : AppConfig F) × (load out.loader s.cfg_path ≡ ok cfg)
        × ((init_config (wired out) s).1.cfg ≡ some cfg)
        × ((init_config (wired out) s).1.world ≡ s.world)
  unfolding init_config
  config-loads s fine = elim (Result-cases (load out.loader s.cfg_path)) [
    | inl (e, bad) ↦ ground (arith, bad)
    | inr (cfg, good) ↦ (cfg, good, ground arith, ground arith)
  ]

  pub log-starts :
      (cfg : AppConfig F) (s : State)
      → s.cfg ≡ some cfg
      → ((init_log_module (wired out) s).1.cfg ≡ some cfg)
        × ((init_log_module (wired out) s).1.world.log
            ≡ some (log_level_from_config out.loader.lower cfg.app.log.level))
        × ((init_log_module (wired out) s).1.world.redis ≡ s.world.redis)
        × (database_of (init_log_module (wired out) s).1.world ≡ database_of s.world)
  unfolding init_log_module
  log-starts cfg s there = ground arith
