-- ===== src/Config/Load.antt =====
-- config/config.go and config/errors.go: loading the configuration, and the text of its errors.
-- toml.Unmarshal and mapstructure's Decode are parameters.
use Prim.Native.Char.{Char}
use Prim.Native.String.{◌++◌ as ◌<>◌}
use lunaship.Base.{
  String, Option, none, some, List, [], ◌∷◌, ◌↔◌, Result, ok, err, if◌then◌else◌, map,
}
use lunaship.Base.Text.{is_empty, join}
use lunaship.ConfigParse.{FieldError, Problems, has_errors, errors, add_decode_error, add_unused}
use lunaship.ConfigParse.Lookup.{Fields}
use lunaship.Config.Report.{IsClean}
use lunaship.Config.App.{
  Floats, AppSection, default_app_section, normalize_app, validate_app, IsValidApp,
  validate_app-IsValidApp, IsValidApp-validate_app,
}
use lunaship.Config.Instances.{
  MysqlConfig, RedisConfig, default_mysql_config, default_redis_config, validate_mysql,
  validate_redis, IsValidMysql, IsValidRedis, validate_mysql-IsValidMysql,
  IsValidMysql-validate_mysql, validate_redis-IsValidRedis, IsValidRedis-validate_redis,
}
use lunaship.Config.Kafka.{
  KafkaConfig, default_kafka_config, normalize_kafka, validate_kafka, IsValidKafka,
  validate_kafka-IsValidKafka, IsValidKafka-validate_kafka,
}

pub data ErrorKind : Type 0 where
  read_kind parse_kind validation_kind : ErrorKind

-- LoadError; the wrapped error is held as its text.
pub record LoadError : Type 0 where
  pub kind : ErrorKind
  pub source : String
  pub cause : Option String
  pub details : List FieldError

abbrev detail_text : FieldError → String
detail_text d = if is_empty d.path then d.message else d.path <> ": " <> d.message

abbrev cause_text : Option String → String
cause_text none = "<nil>"
cause_text (some text) = text

abbrev validation_text : List String → String
validation_text [] = "config validation failed"
validation_text (part ∷ parts) = "config validation failed: " <> join "; " (part ∷ parts)

-- LoadError.Error; `none` is the nil pointer, `quote` is strconv.Quote.
unfoldable pub error_text : (String → String) → Option LoadError → String
error_text quote none = "<nil>"
error_text quote (some e) = elim e.kind [
  | validation_kind ↦ validation_text (map detail_text e.details)
  | read_kind ↦
      if is_empty e.source
      then "read config failed: " <> cause_text e.cause
      else "read config " <> quote e.source <> " failed: " <> cause_text e.cause
  | parse_kind ↦ "parse config failed: " <> cause_text e.cause
]

pub record AppConfig (F : Type 0) : Type 0 where
  pub app : AppSection F
  pub redis : RedisConfig
  pub mysql : MysqlConfig
  pub kafka : KafkaConfig
  pub custom : Fields
  pub raw : Fields

-- What Decode leaves: the target, the unused paths if there is metadata, and the error's text.
pub record Decoded (A : Type 0) : Type 0 where
  pub target : A
  pub unused : Option (List String)
  pub failure : Option String

-- The libraries that the loading calls, and the file system.
pub record Loader (B F : Type 0) : Type 0 where
  pub float : Floats F
  pub lower : Char → Char
  pub read_file : String → Result String B
  pub unmarshal : B → Result String (Option Fields)
  pub decode : Fields → AppConfig F → Decoded (AppConfig F)

module _ {B F : Type 0} (libs : Loader B F) where
  unfoldable pub default_config : Fields → AppConfig F
  default_config raw = record {
    app = default_app_section libs.float;
    redis = default_redis_config;
    mysql = default_mysql_config;
    kafka = default_kafka_config;
    custom = Fields.end;
    raw = raw;
  }

  abbrev pub normalized : AppConfig F → AppConfig F
  normalized c = record c {
    app = normalize_app libs.lower c.app;
    kafka = normalize_kafka libs.lower c.kafka;
  }

  -- The four calls of Validate.
  unfoldable pub validate_config : AppConfig F → Problems → Problems
  validate_config c problems = validate_kafka c.kafka (
      validate_mysql c.mysql
        (validate_redis c.redis (validate_app libs.lower libs.float c.app problems)))

  -- The problems that decoding reports.
  unfoldable pub decode_problems : Decoded (AppConfig F) → Problems
  decode_problems d = add_unused (add_decode_error (some []) "" d.failure) d.unused []

  unfoldable pub check_config : AppConfig F → Problems → Result LoadError (AppConfig F)
  check_config c problems =
      if has_errors problems
      then err
          (record { kind = validation_kind; source = ""; cause = none; details = errors problems })
      else ok c

  abbrev pub raw_of : Option Fields → Fields
  raw_of none = Fields.end
  raw_of (some raw) = raw

  unfoldable pub load_fields : Fields → Result LoadError (AppConfig F)
  load_fields raw =
      let d = libs.decode raw (default_config raw) in
      let c = normalized d.target in check_config c (validate_config c (decode_problems d))

  unfoldable pub load_from_bytes : B → Result LoadError (AppConfig F)
  load_from_bytes body = elim (libs.unmarshal body) [
    | err text ↦ err (record { kind = parse_kind; source = ""; cause = some text; details = [] })
    | ok raw ↦ load_fields (raw_of raw)
  ]

  unfoldable pub load : String → Result LoadError (AppConfig F)
  load path = elim (libs.read_file path) [
    | err text ↦ err (record { kind = read_kind; source = path; cause = some text; details = [] })
    | ok body ↦ load_from_bytes body
  ]

  -- Every section is valid.
  pub record IsValidConfig (c : AppConfig F) : Type 0 where
    pub app : IsValidApp libs.lower libs.float c.app
    pub redis : IsValidRedis c.redis
    pub mysql : IsValidMysql c.mysql
    pub kafka : IsValidKafka c.kafka

  -- The four Validate methods together report nothing exactly when nothing was reported before and
  -- every section is valid.
  pub validate_config-IsValidConfig :
      (c : AppConfig F) (problems : Problems)
      → IsClean (validate_config c problems) ↔ (IsClean problems × IsValidConfig c)
  unfolding validate_config
  validate_config-IsValidConfig c problems = (
    (λ e.
        let (e₁, kafka) = validate_kafka-IsValidKafka c.kafka _ e in
        let (e₂, mysql) = validate_mysql-IsValidMysql c.mysql _ e₁ in
        let (e₃, redis) = validate_redis-IsValidRedis c.redis _ e₂ in
        let (e₄, app) = validate_app-IsValidApp libs.lower libs.float c.app problems e₃ in
        (e₄, record { app = app; redis = redis; mysql = mysql; kafka = kafka })),
    (λ (e, v).
        IsValidKafka-validate_kafka c.kafka _
          (IsValidMysql-validate_mysql c.mysql _
            (IsValidRedis-validate_redis c.redis _
              (IsValidApp-validate_app libs.lower libs.float c.app problems e v.app) v.redis)
            v.mysql)
          v.kafka),
  )
