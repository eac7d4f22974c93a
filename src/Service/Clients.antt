-- ===== src/Service/Clients.antt =====
-- service/setup.go: how initRedis and initMySQL start the clients, on the instances that have been
-- selected. The answers of the databases are arguments; FormatDSN is a parameter.
use Prim.Native.String.{◌++◌ as ◌<>◌}
use lunaship.Base.{ℕ, String, Bool, true, false, Option, none, some, [], ◌∷◌}
use lunaship.Base.Int.{ℤ, pos_part}
use lunaship.Base.Scan.{format_int}
use lunaship.Config.Instances.{MysqlConfig, MysqlInstance, RedisInstance}
use lunaship.Redis.Client.{RedisOptions, RedisGlobals, init_redis}
use lunaship.Mysql.{Gorm, MysqlError, MysqlGlobals, init_mysql}

abbrev address : String → ℤ → String
address host port = host <> ":" <> format_int port

-- redis.UniversalOptions of an instance, whose number of a database is not negative.
unfoldable pub redis_options : RedisInstance → RedisOptions
redis_options i = record {
  addrs = address i.addr i.port ∷ [];
  password = i.password;
  db = pos_part i.db;
}

abbrev pub default_redis_retry : ℕ
default_redis_retry = 2

-- The end of initRedis.
unfoldable pub start_redis :
    {S E : Type 0}
    → (String → String)
    → (S → Option E × S)
    → RedisInstance
    → RedisGlobals S
    → Option E × RedisGlobals S
start_redis env ping i g =
    let (error, g', pings) = init_redis env ping (some (redis_options i)) default_redis_retry g in
    (error, g')

-- driverMySQL.Config, by the fields that depend on the instance.
pub record DriverConfig : Type 0 where
  pub user : String
  pub passwd : String
  pub addr : String
  pub db_name : String

unfoldable pub driver_config : MysqlInstance → DriverConfig
driver_config i = record {
  user = i.username;
  passwd = i.password;
  addr = address i.host i.port;
  db_name = i.database;
}

pub data StartError (E : Type 0) : Type 0 where
  init_error : MysqlError E → StartError E
  nil_db : StartError E
  plain : E → StartError E

-- The limits of a pool: open and idle connections, and the time that they may be idle.
pub record Pool : Type 0 where
  pub max_open : ℤ
  pub max_idle : ℤ
  pub max_idle_time : ℤ

abbrev pub pool_of : MysqlConfig → Pool
pool_of c = record {
  max_open = c.max_open_conns;
  max_idle = c.max_idle_conns;
  max_idle_time = c.max_idle_time;
}

-- The database after InitMySQL: `sql_db` answers db.DB(), `ping` the Ping, if it is made.
module _ {E D : Type 0} (sql_db ping : D → Option E) where
  abbrev ping_error : Option E → Option (StartError E)
  ping_error none = none
  ping_error (some e) = some (plain e)

  abbrev pub pinged : Bool → D → Option (StartError E)
  pinged true db = ping_error (ping db)
  pinged false db = none

  -- The error, and the limits that are set.
  unfoldable pub configure_pool :
      MysqlInstance → MysqlConfig → Option D → Option (StartError E) × Option Pool
  configure_pool i c none = (some nil_db, none)
  configure_pool i c (some db) = elim (sql_db db) [
    | some e ↦ (some (plain e), none)
    | none ↦ (pinged i.ping_enabled db, some (pool_of c))
  ]

  abbrev pub after_init :
      MysqlInstance
      → MysqlConfig
      → Option (MysqlError E)
      → MysqlGlobals D
      → Option (StartError E) × MysqlGlobals D × Option Pool
  after_init i c (some e) g = (some (init_error e), g, none)
  after_init i c none g = let (error, pool) = configure_pool i c g.db in (error, g, pool)

  -- The end of initMySQL. `open_dsn` is what gorm answers for a DSN; the caller's migration is empty.
  unfoldable pub start_mysql :
      (DriverConfig → String)
      → (String → Gorm E D)
      → MysqlInstance
      → MysqlConfig
      → MysqlGlobals D
      → Option (StartError E) × MysqlGlobals D × Option Pool
  start_mysql format_dsn open_dsn i c g =
      let (error, g') = init_mysql (open_dsn (format_dsn (driver_config i))) g in
      after_init i c error g'
