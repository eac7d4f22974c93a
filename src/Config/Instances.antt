-- ===== src/Config/Instances.antt =====
-- mysql/app_config.go and redis/config.go: the instances of the two databases. A map from names is
-- held as its entries, in the order in which the range over it gives them.
use Prim.Native.String.{◌++◌ as ◌<>◌}
use lunaship.Base.{String, Bool, false, List, [], ◌∷◌, ◌≡◌, All, sym, ◌∙◌}
use lunaship.Base.Int.{ℤ, pos, ltb_ℤ, leb_ℤ}
use lunaship.Base.Text.{trim_space, is_empty}
use lunaship.ConfigParse.{Problems, validate_port, validate_duration}
use lunaship.Config.Report.{
  report, IsClean, report-IsClean, bad_port, validate_port-report, validate_duration-report,
}

pub record MysqlInstance : Type 0 where
  pub host : String
  pub port : ℤ
  pub username : String
  pub password : String
  pub database : String
  pub ping_enabled : Bool

pub record MysqlConfig : Type 0 where
  pub max_open_conns : ℤ
  pub max_idle_conns : ℤ
  pub max_idle_time : ℤ
  pub instances : List (String × MysqlInstance)

pub record RedisInstance : Type 0 where
  pub addr : String
  pub port : ℤ
  pub password : String
  pub db : ℤ

pub record RedisConfig : Type 0 where
  pub instances : List (String × RedisInstance)

unfoldable pub default_mysql_config : MysqlConfig
default_mysql_config = record {
  max_open_conns = pos 200;
  max_idle_conns = pos 100;
  max_idle_time = pos 0;
  instances = [];
}

unfoldable pub default_redis_config : RedisConfig
default_redis_config = record { instances = [] }

abbrev blank : String → Bool
blank s = is_empty (trim_space s)

-- The body of the loop over the instances.
unfoldable pub validate_mysql_instance : String → MysqlInstance → Problems → Problems
validate_mysql_instance name i problems =
    report (blank i.database) ("mysql." <> name <> ".database") "is required" (
      report (blank i.username) ("mysql." <> name <> ".username") "is required" (
        validate_port i.port ("mysql." <> name <> ".port")
          (report (blank i.host) ("mysql." <> name <> ".host") "is required" problems)))

unfoldable pub validate_mysql_instances : List (String × MysqlInstance) → Problems → Problems
validate_mysql_instances [] problems = problems
validate_mysql_instances ((name, i) ∷ rest) problems =
    validate_mysql_instances rest (validate_mysql_instance name i problems)

unfoldable pub validate_mysql : MysqlConfig → Problems → Problems
validate_mysql c problems = validate_mysql_instances c.instances (
    validate_duration c.max_idle_time "mysql.max_idle_time" (
      report (ltb_ℤ c.max_open_conns c.max_idle_conns) "mysql.max_idle_conns"
        "must be less than or equal to mysql.max_open_conns"
        (report (ltb_ℤ c.max_idle_conns (pos 0)) "mysql.max_idle_conns"
          "must be greater than or equal to 0"
          (report (leb_ℤ c.max_open_conns (pos 0)) "mysql.max_open_conns" "must be greater than 0"
            problems))))

-- The body of the loop over the instances.
unfoldable pub validate_redis_instance : String → RedisInstance → Problems → Problems
validate_redis_instance name i problems =
    report (ltb_ℤ i.db (pos 0)) ("redis." <> name <> ".db") "must be greater than or equal to 0" (
      validate_port i.port ("redis." <> name <> ".port")
        (report (blank i.addr) ("redis." <> name <> ".addr") "is required" problems))

unfoldable pub validate_redis_instances : List (String × RedisInstance) → Problems → Problems
validate_redis_instances [] problems = problems
validate_redis_instances ((name, i) ∷ rest) problems =
    validate_redis_instances rest (validate_redis_instance name i problems)

unfoldable pub validate_redis : RedisConfig → Problems → Problems
validate_redis c problems = validate_redis_instances c.instances problems

pub record IsValidMysqlInstance (i : MysqlInstance) : Type 0 where
  pub host : blank i.host ≡ false
  pub port : bad_port i.port ≡ false
  pub username : blank i.username ≡ false
  pub database : blank i.database ≡ false

pub record IsValidRedisInstance (i : RedisInstance) : Type 0 where
  pub addr : blank i.addr ≡ false
  pub port : bad_port i.port ≡ false
  pub db : ltb_ℤ i.db (pos 0) ≡ false

pub record IsValidMysql (c : MysqlConfig) : Type 0 where
  pub opened : leb_ℤ c.max_open_conns (pos 0) ≡ false
  pub idle : ltb_ℤ c.max_idle_conns (pos 0) ≡ false
  pub fits : ltb_ℤ c.max_open_conns c.max_idle_conns ≡ false
  pub time : ltb_ℤ c.max_idle_time (pos 0) ≡ false
  pub instances : All (λ e. IsValidMysqlInstance e.1) c.instances

abbrev pub IsValidRedis : RedisConfig → Type 0
IsValidRedis c = All (λ e. IsValidRedisInstance e.1) c.instances

mysql_instances_sound :
    (is : List (String × MysqlInstance)) (problems : Problems)
    → IsClean (validate_mysql_instances is problems)
    → IsClean problems × All (λ e. IsValidMysqlInstance e.1) is
unfolding validate_mysql_instances validate_mysql_instance
mysql_instances_sound [] problems e = (e, tt)
mysql_instances_sound ((name, i) ∷ rest) problems e =
    let (e₁, others) = mysql_instances_sound rest (validate_mysql_instance name i problems) e in
    let (e₂, database) = (report-IsClean _ _ _ _).0 e₁ in
    let (e₃, username) = (report-IsClean _ _ _ _).0 e₂ in
    let (e₄, port) = (report-IsClean _ _ _ _).0 (sym (validate_port-report _ _ _) ∙ e₃) in
    let (e₅, host) = (report-IsClean _ _ _ _).0 e₄ in
    (e₅, (record { host = host; port = port; username = username; database = database }, others))

mysql_instances_complete :
    (is : List (String × MysqlInstance)) (problems : Problems)
    → IsClean problems
    → All (λ e. IsValidMysqlInstance e.1) is
    → IsClean (validate_mysql_instances is problems)
unfolding validate_mysql_instances validate_mysql_instance validate_port
mysql_instances_complete [] problems e v = e
mysql_instances_complete ((name, i) ∷ rest) problems e v =
    mysql_instances_complete rest (validate_mysql_instance name i problems)
      (rw (v.0.host, v.0.port, v.0.username, v.0.database, e)) v.1

redis_instances_sound :
    (is : List (String × RedisInstance)) (problems : Problems)
    → IsClean (validate_redis_instances is problems)
    → IsClean problems × All (λ e. IsValidRedisInstance e.1) is
unfolding validate_redis_instances validate_redis_instance
redis_instances_sound [] problems e = (e, tt)
redis_instances_sound ((name, i) ∷ rest) problems e =
    let (e₁, others) = redis_instances_sound rest (validate_redis_instance name i problems) e in
    let (e₂, db) = (report-IsClean _ _ _ _).0 e₁ in
    let (e₃, port) = (report-IsClean _ _ _ _).0 (sym (validate_port-report _ _ _) ∙ e₂) in
    let (e₄, addr) = (report-IsClean _ _ _ _).0 e₃ in
    (e₄, (record { addr = addr; port = port; db = db }, others))

redis_instances_complete :
    (is : List (String × RedisInstance)) (problems : Problems)
    → IsClean problems
    → All (λ e. IsValidRedisInstance e.1) is
    → IsClean (validate_redis_instances is problems)
unfolding validate_redis_instances validate_redis_instance validate_port
redis_instances_complete [] problems e v = e
redis_instances_complete ((name, i) ∷ rest) problems e v =
    redis_instances_complete rest (validate_redis_instance name i problems)
      (rw (v.0.addr, v.0.port, v.0.db, e)) v.1

pub validate_mysql-IsValidMysql :
    (c : MysqlConfig) (problems : Problems)
    → IsClean (validate_mysql c problems)
    → IsClean problems × IsValidMysql c
unfolding validate_mysql
validate_mysql-IsValidMysql c problems e =
    let (e₁, instances) = mysql_instances_sound c.instances _ e in
    let (e₂, time) = (report-IsClean _ _ _ _).0 (sym (validate_duration-report _ _ _) ∙ e₁) in
    let (e₃, fits) = (report-IsClean _ _ _ _).0 e₂ in
    let (e₄, idle) = (report-IsClean _ _ _ _).0 e₃ in
    let (e₅, opened) = (report-IsClean _ _ _ _).0 e₄ in
    (e₅, record { opened = opened; idle = idle; fits = fits; time = time; instances = instances })

pub IsValidMysql-validate_mysql :
    (c : MysqlConfig) (problems : Problems)
    → IsClean problems
    → IsValidMysql c
    → IsClean (validate_mysql c problems)
unfolding validate_mysql validate_duration
IsValidMysql-validate_mysql c problems e v =
    mysql_instances_complete c.instances _ (rw (v.opened, v.idle, v.fits, v.time, e)) v.instances

pub validate_redis-IsValidRedis :
    (c : RedisConfig) (problems : Problems)
    → IsClean (validate_redis c problems)
    → IsClean problems × IsValidRedis c
unfolding validate_redis
validate_redis-IsValidRedis c problems e = redis_instances_sound c.instances problems e

pub IsValidRedis-validate_redis :
    (c : RedisConfig) (problems : Problems)
    → IsClean problems
    → IsValidRedis c
    → IsClean (validate_redis c problems)
unfolding validate_redis
IsValidRedis-validate_redis c problems e v = redis_instances_complete c.instances problems e v
