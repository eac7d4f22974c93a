-- ===== src/Mysql/Samples.antt =====
-- The theorem on the logger of MySQL applied to a slow statement.
use lunaship.Base.{ℕ, Option, String, Bool, false, none, some, [], ◌≡◌, arith, ◌==◌}
use lunaship.Base.Int.{pos}
use lunaship.Telemetry.{GoContext, EndedSpan, LogLine}
use lunaship.Mysql.Logger.{GormLevels, GormLogger, log_mode, trace}
use lunaship.Mysql.Laws.{recorded, AgreesWith, IsQuieter, trace-log_mode}

abbrev levels : GormLevels
levels = record { error = 2; warn = 3; info = 4 }

abbrev logger : GormLogger
logger = record {
  log_level = 4;
  slow_threshold = pos 200000000;
  instance_ip = "db";
  instance_port = pos 3306;
  database = "shop";
}

abbrev not_found : String → Bool
not_found e = e == "record not found"

abbrev shown : String → String
shown e = e

abbrev context : GoContext
context = record {
  logged = record {
    fields = [];
    trace_id = none;
    span_id = none;
    parent_span_id = none;
    sampled = none;
  };
  span = record { is_valid = false; trace_id = ""; span_id = ""; sampled = false };
}

-- The statement at a level.
abbrev traced : ℕ → EndedSpan String × Option LogLine
traced level =
    trace levels (log_mode level logger) shown not_found context "select 1" (pos 300000000)
      (some "locked")

trace-log_mode_example :
    ((traced 2).0 ≡ (traced 3).0)
    × IsQuieter (traced 2).1 (traced 3).1
    × ((traced 2).0.error ≡ recorded not_found (some "locked"))
    × AgreesWith (recorded not_found (some "locked")) (traced 2).1
trace-log_mode_example =
    trace-log_mode levels shown not_found logger 2 3 context "select 1" (pos 300000000)
      (some "locked") (omega arith)
