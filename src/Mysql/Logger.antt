-- ===== src/Mysql/Logger.antt =====
-- mysql/mysql_logger.go: mysqlGormLogger. The levels of gorm and the parser of a DSN are parameters; a
-- line is written to the logger of the context, which carries the context's fields.
use lunaship.Base.{
  ℕ, String, Bool, false, not, Option, none, some, List, [], ◌∷◌, ◌++◌, if◌then◌else◌, ◌&&◌, ltb,
}
use lunaship.Base.Int.{ℤ, pos, ltb_ℤ}
use lunaship.Base.Text.{trim_space, is_empty}
use lunaship.Base.Net.{parse_port, split_host_port, split_inside, milliseconds}
use lunaship.Log.{Field}
use lunaship.Telemetry.{
  Scalar, text_of, int_of, bool_of, GoContext, LineLevel, info_line, warn_line, error_line, LogLine,
  EndedSpan,
}

-- The numbers of gorm's levels.
pub record GormLevels : Type 0 where
  pub error : ℕ
  pub warn : ℕ
  pub info : ℕ

pub record GormLogger : Type 0 where
  pub log_level : ℕ
  pub slow_threshold : ℤ
  pub instance_ip : String
  pub instance_port : ℤ
  pub database : String

abbrev pub default_mysql_slow_threshold : ℤ
default_mysql_slow_threshold = pos 200000000

unfoldable pub parse_host_port : String → String × ℤ
parse_host_port addr =
    let trimmed = trim_space addr in
    if is_empty trimmed then ("", pos 0) else elim (split_host_port trimmed) [
      | some (host, port) ↦ (host, parse_port port)
      | none ↦ elim (split_inside trimmed) [
        | some (before, after) ↦ (trim_space before, parse_port after)
        | none ↦ (trimmed, pos 0)
      ]
    ]

-- mysqlEndpoint, from what ParseDSN answers: the address and the database.
unfoldable pub mysql_endpoint : Option (String × String) → String × ℤ × String
mysql_endpoint none = ("", pos 0, "")
mysql_endpoint (some (addr, database)) =
    let (host, port) = parse_host_port addr in (host, port, database)

unfoldable pub new_mysql_gorm_logger : GormLevels → Option (String × String) → GormLogger
new_mysql_gorm_logger levels dsn =
    let (host, port, database) = mysql_endpoint dsn in
    record {
      log_level = levels.info;
      slow_threshold = default_mysql_slow_threshold;
      instance_ip = host;
      instance_port = port;
      database = database;
    }

unfoldable pub log_mode : ℕ → GormLogger → GormLogger
log_mode level l = record l { log_level = level }

-- A line in the logger of a context, if the logger's level is at least `least`.
abbrev pub line_at :
    GormLogger → GoContext → ℕ → LineLevel → String → List (Field Scalar) → Option LogLine
line_at l ctx least level message fields =
    if ltb l.log_level least
    then none
    else some (record { level = level; message = message; fields = ctx.logged.fields ++ fields })

module _ (levels : GormLevels) (l : GormLogger) where
  -- Info, Warn and Error of a message that is already formatted.
  unfoldable pub gorm_info : GoContext → String → Option LogLine
  gorm_info ctx message = line_at l ctx levels.info info_line message []

  unfoldable pub gorm_warn : GoContext → String → Option LogLine
  gorm_warn ctx message = line_at l ctx levels.warn warn_line message []

  unfoldable pub gorm_error : GoContext → String → Option LogLine
  gorm_error ctx message = line_at l ctx levels.error error_line message []

  unfoldable pub sql_fields : String → ℤ → Bool → List (Field Scalar)
  sql_fields sql duration is_slow =
      text_of "_instance_ip" l.instance_ip
      ∷ int_of "_instance_port" l.instance_port
      ∷ text_of "_database" l.database
      ∷ int_of "_dur_ms" (milliseconds duration)
      ∷ text_of "_sql" sql
      ∷ bool_of "_is_slow_query" is_slow
      ∷ []

  -- emitTraceSpan
  unfoldable pub emit_trace_span : {E : Type 0} → ℤ → Bool → Option E → EndedSpan E
  emit_trace_span duration has_error error = record {
    name = "mysql";
    attributes =
        text_of "target_type" "mysql"
        ∷ text_of "remote.ip" l.instance_ip
        ∷ int_of "remote.port" l.instance_port
        ∷ bool_of "error.flag" has_error
        ∷ int_of "duration.ms" (milliseconds duration)
        ∷ [];
    error = if has_error then error else none;
  }

  module _ {E : Type 0} (error_text : E → String) (is_not_found : E → Bool) where
    abbrev pub emits : Option E → Bool
    emits none = false
    emits (some e) = not (is_not_found e)

    abbrev pub is_slow_query : ℤ → Bool
    is_slow_query duration = ltb_ℤ (pos 0) l.slow_threshold && ltb_ℤ l.slow_threshold duration

    abbrev named_error : Option E → List (Field Scalar)
    named_error none = []
    named_error (some e) = text_of "_error" (error_text e) ∷ []

    -- Trace of a statement that took `duration` nanoseconds: the span, and the line.
    unfoldable pub trace : GoContext → String → ℤ → Option E → EndedSpan E × Option LogLine
    trace ctx sql duration error =
        let is_slow = is_slow_query duration in
        let fields = sql_fields sql duration is_slow in
        let emit_error = emits error in
        (
          emit_trace_span duration emit_error error,
          if emit_error
              then line_at l ctx levels.error error_line "SQL" (fields ++ named_error error)
              else if is_slow
              then line_at l ctx levels.warn warn_line "SQL" fields
              else line_at l ctx levels.info info_line "SQL" fields,
        )
