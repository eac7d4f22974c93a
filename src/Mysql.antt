-- ===== src/Mysql.antt =====
-- The package mysql: mysql/mysql.go connects once, mysql/mysql_logger.go logs the statements. gorm is
-- a parameter.
pub mod Logger
pub mod Laws
mod Samples
use Prim.Native.String.{◌++◌ as ◌<>◌}
use lunaship.Base.{
  ℕ, String, Bool, true, false, Option, none, some, List, [], ◌∷◌, ◌++◌, Result, ok, err,
  if◌then◌else◌,
}
use lunaship.Base.Text.{str_or_default}

-- LoadMySQLConfFromEnv: the DSN; the line that `debug` writes is left out.
unfoldable pub load_mysql_conf_from_env : (String → String) → String
load_mysql_conf_from_env env =
    str_or_default (env "MYSQL_USER") "root"
    <> ":"
    <> str_or_default (env "MYSQL_PASSWORD") "helloworld"
    <> "@tcp("
    <> str_or_default (env "MYSQL_HOST") "192.168.0.120"
    <> ":"
    <> str_or_default (env "MYSQL_PORT") "3306"
    <> ")/"
    <> str_or_default (env "MYSQL_DATABASE") "test"
    <> "?charset=utf8mb4&parseTime=True&loc=Local"

pub data MysqlError (E : Type 0) : Type 0 where
  init_failed : MysqlError E
  plain config_db : E → MysqlError E

-- What gorm answers; `opened` may give no database, and `migrate` is the caller's function.
pub record Gorm (E D : Type 0) : Type 0 where
  pub opened : Result E (Option D)
  pub sql_db : D → Option E
  pub migrate : D → Option E × D

-- The globals of the package: the sync.Once, the database with the limits of its connections, idle
-- and open, and the lines of the log.
pub record MysqlGlobals (D : Type 0) : Type 0 where
  pub done : Bool
  pub db : Option D
  pub limits : Option (ℕ × ℕ)
  pub lines : List String

module _ {E D : Type 0} (gorm : Gorm E D) where
  abbrev as_plain : Option E → Option (MysqlError E)
  as_plain none = none
  as_plain (some e) = some (plain e)

  -- The database is there and configured: it is migrated.
  unfoldable pub migrate_db : D → MysqlGlobals D → Option (MysqlError E) × MysqlGlobals D
  migrate_db db g =
      let answer = gorm.migrate db in
      (
        as_plain answer.0,
        record g {
          db = some answer.1;
          limits = some (100, 200);
          lines = g.lines ++ "mysql connected" ∷ [];
        },
      )

  -- The function that InitMySQL runs once.
  unfoldable pub connect_mysql : MysqlGlobals D → Option (MysqlError E) × MysqlGlobals D
  connect_mysql g = elim gorm.opened [
    | err e ↦ (some (plain e), g)
    | ok none ↦ (some init_failed, g)
    | ok (some db) ↦ elim (gorm.sql_db db) [
      | some e ↦ (some (config_db e), record g { db = some db })
      | none ↦ migrate_db db g
    ]
  ]

  unfoldable pub init_mysql : MysqlGlobals D → Option (MysqlError E) × MysqlGlobals D
  init_mysql g = elim g.done [ true ↦ (none, g) | false ↦ connect_mysql (record g { done = true }) ]
