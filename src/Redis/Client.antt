-- ===== src/Redis/Client.antt =====
-- redis/redis.go: the global client and its one initialisation. The server is a state `S` that a Ping
-- may change.
use lunaship.Base.{ℕ, suc, String, Bool, true, false, Option, none, some, List, [], ◌∷◌}
use lunaship.Base.Text.{str_or_default}
use lunaship.Utils.{Action, retry}
use lunaship.Redis.Pipeline.{TraceLogHook, new_redis_trace_log_hook}

-- redis.UniversalOptions, by the fields that are set.
pub record RedisOptions : Type 0 where
  pub addrs : List String
  pub password : String
  pub db : ℕ

unfoldable pub load_redis_config_from_env : (String → String) → RedisOptions
load_redis_config_from_env env = record {
  addrs = str_or_default (env "REDIS_ADDR") "127.0.0.1:6379" ∷ [];
  password = str_or_default (env "REDIS_PWD") "";
  db = 0;
}

-- The client by its options and its hook.
pub record RedisClient : Type 0 where
  pub options : RedisOptions
  pub hook : TraceLogHook

-- The sync.Once, the global client, the server, and the warnings of the log.
pub record RedisGlobals (S : Type 0) : Type 0 where
  pub done : Bool
  pub client : Option RedisClient
  pub server : S
  pub warnings : ℕ

module _ {S E : Type 0} (env : String → String) (ping : S → Option E × S) where
  abbrev options_or_env : Option RedisOptions → RedisOptions
  options_or_env none = load_redis_config_from_env env
  options_or_env (some conf) = conf

  abbrev warned : Option E → ℕ → ℕ
  warned none n = n
  warned (some e) n = suc n

  -- The function that is retried: a Ping, and a warning if it fails.
  unfoldable pub ping_redis : Action (RedisGlobals S) E
  ping_redis g =
      let (error, server) = ping g.server in
      (error, record g { server = server; warnings = warned error g.warnings })

  abbrev pub client_of : Option RedisOptions → RedisClient
  client_of conf =
      let options = options_or_env conf in
      record { options = options; hook = new_redis_trace_log_hook options.addrs }

  -- The function that InitRedis runs once; the last component counts the pings.
  unfoldable pub connect_redis :
      Option RedisOptions → ℕ → RedisGlobals S → Option E × RedisGlobals S × ℕ
  connect_redis conf max_retry g =
      retry max_retry ping_redis (record g { client = some (client_of conf) })

  unfoldable pub init_redis :
      Option RedisOptions → (max_retry : ℕ) → RedisGlobals S → Option E × RedisGlobals S × ℕ
  init_redis conf max_retry g = elim g.done [
    | true ↦ (none, g, 0)
    | false ↦ connect_redis conf max_retry (record g { done = true })
  ]
