-- ===== src/Service/Wired.antt =====
-- service/setup.go with infra/trace.go, redis/redis.go and mysql/mysql.go: the libraries that the default
-- modules start, filled with the models of those packages. What stands behind them, the collector of
-- the traces, the server of Redis and the database, stays a parameter.
pub mod Steps
pub mod Mysql
pub mod Laws
mod Samples
use lunaship.Base.{String, Bool, true, Option, none, some, List}
use lunaship.Config.Instances.{MysqlConfig, MysqlInstance, RedisInstance}
use lunaship.Config.Load.{Loader}
use lunaship.Infra.Tracing.{TraceConfig}
use lunaship.Infra.Tracing.Export.{TraceError}
use lunaship.Infra.Tracing.Init as Tracing
use lunaship.Mysql.{Gorm, MysqlGlobals}
use lunaship.Redis.Client.{RedisGlobals}
use lunaship.Service.Bootstrap.{Libraries}
use lunaship.Service.Clients.{DriverConfig, Pool, StartError, start_redis, start_mysql}
use lunaship.Service.Settings.{Level}

-- The globals of the packages, the limits of the database's pool, and whether the metrics are served.
pub record World (S D F : Type 0) : Type 0 where
  pub log : Option Level
  pub tracing : Tracing.Globals F
  pub redis : RedisGlobals S
  pub mysql : MysqlGlobals D
  pub pool : Option Pool
  pub metrics : Bool
  pub gopprof : Option String

-- What stands behind the packages, and the texts of their errors.
pub record Outside (B S D F : Type 0) : Type 0 where
  pub loader : Loader B F
  pub at_most : F → F → Bool
  pub tracing : Tracing.Libraries String F
  pub trace_text : TraceError String → String
  pub env : String → String
  pub ping : S → Option String × S
  pub format_dsn : DriverConfig → String
  pub open_dsn : String → Gorm String D
  pub sql_db : D → Option String
  pub ping_db : D → Option String
  pub start_text : StartError String → String

module _ {B S D F : Type 0} (out : Outside B S D F) where
  abbrev said : {X : Type 0} → (X → String) → Option X → Option String
  said text none = none
  said text (some x) = some (text x)

  unfoldable pub init_tracing_in : TraceConfig F → World S D F → Option String × World S D F
  init_tracing_in conf w =
      let answer = Tracing.init_tracing out.tracing conf w.tracing in
      (
        said out.trace_text (Tracing.error_of_init out.tracing answer.0),
        record w { tracing = answer.1 },
      )

  unfoldable pub init_redis_in : RedisInstance → World S D F → Option String × World S D F
  init_redis_in i w =
      let answer = start_redis out.env out.ping i w.redis in
      (answer.0, record w { redis = answer.1 })

  unfoldable pub init_mysql_in :
      MysqlInstance → MysqlConfig → World S D F → Option String × World S D F
  init_mysql_in i c w =
      let answer = start_mysql out.sql_db out.ping_db out.format_dsn out.open_dsn i c w.mysql in
      (said out.start_text answer.0, record w { mysql = answer.1; pool = answer.2 })

  abbrev pub wired : Libraries B (World S D F) F
  wired = record {
    loader = out.loader;
    at_most = out.at_most;
    init_log = λ log_file err_file level w. record w { log = some level };
    init_tracing = init_tracing_in;
    init_redis = init_redis_in;
    init_mysql = init_mysql_in;
    init_metrics = λ w. record w { metrics = true };
    init_gopprof = λ addr w. (none, record w { gopprof = some addr });
  }
