-- ===== src/Log/Setup.antt =====
-- log/log.go: InitLog, the files that it writes and how it encodes times and durations. zap and lumberjack
-- are known by what they are given; the levels are those of Log/Levels.
use lunaship.Base.{
  ℕ, zero, suc, ◌+◌, String, Bool, true, false, List, [], ◌∷◌, ◌≡◌, refl, ltb, leb, if◌then◌else◌,
  arith, Bool-cases, inl, inr, keep, map, ◌/◌,
}
use lunaship.Base.Int.{ℤ, pos, negsuc}
use lunaship.Log.{Field}
use lunaship.Log.Identity.{Parsers, default_injected_fields_from_env}
use lunaship.Log.Levels.{info_enabled, warn_enabled, console_enabled}

-- lumberjack.Logger
pub record Rotation : Type 0 where
  pub filename : String
  pub max_size : ℕ
  pub max_backups : ℕ
  pub max_age : ℕ
  pub compress : Bool

unfoldable pub get_writer : String → Rotation
get_writer filename = record {
  filename = filename;
  max_size = 50;
  max_backups = 5;
  max_age = 30;
  compress = false;
}

-- The keys of zapcore.EncoderConfig, with the functions that encode a time, by its milliseconds, and a
-- duration, by its nanoseconds.
pub record EncoderConfig : Type 0 where
  pub message_key : String
  pub level_key : String
  pub time_key : String
  pub caller_key : String
  pub encode_time : ℤ → ℤ
  pub encode_duration : ℤ → ℤ

abbrev negated : ℕ → ℤ
negated zero = pos 0
negated (suc n) = negsuc n

-- The quotient of an int64 by 1000000, which Go rounds towards zero.
unfoldable pub in_milliseconds : ℤ → ℤ
in_milliseconds (pos n) = pos (n / 1000000)
in_milliseconds (negsuc n) = negated ((n + 1) / 1000000)

-- Where a core writes: text into a file, or JSON to the standard output.
pub data Sink : Type 0 where
  console_file : Rotation → Sink
  json_stdout : Sink

-- The core that InitLog makes: its tee, each core with the levels that it writes, and the fields that are
-- given to every entry.
pub record LogSetup : Type 0 where
  pub encoder : EncoderConfig
  pub cores : List (Sink × (ℕ → Bool))
  pub defaults : List (Field ℕ)
  pub adds_caller : Bool
  pub stacktrace_from : ℕ

abbrev pub encoder_config : EncoderConfig
encoder_config = record {
  message_key = "_msg";
  level_key = "_level";
  time_key = "_ts";
  caller_key = "file";
  encode_time = λ milliseconds. milliseconds;
  encode_duration = in_milliseconds;
}

-- InitLog, whose result is also the global logger; `warn` and `error` are the numbers of zap's levels.
unfoldable pub init_log :
    Parsers
    → (String → String)
    → (warn error : ℕ) → (log_path err_path : String) → (log_level : ℕ) → LogSetup
init_log parsers env warn error log_path err_path log_level = record {
  encoder = encoder_config;
  cores =
      (console_file (get_writer log_path), info_enabled warn log_level)
      ∷ (console_file (get_writer err_path), warn_enabled warn log_level)
      ∷ (json_stdout, console_enabled warn log_level)
      ∷ [];
  defaults = default_injected_fields_from_env parsers env;
  adds_caller = true;
  stacktrace_from = error;
}

-- Where an entry of a level is written.
abbrev pub written : ℕ → List (Sink × (ℕ → Bool)) → List Sink
written level cores = map (λ c. c.0) (keep (λ c. c.1 level) cores)

-- After InitLog an entry below the log level is written nowhere, and any other one to exactly one of the two
-- files, the one for errors if it is at least a warning, and to the standard output.
pub init_log-written :
    (parsers : Parsers) (env : String → String) (warn error log_level level : ℕ)
    (log_path err_path : String)
    → written level (init_log parsers env warn error log_path err_path log_level).cores ≡ (
        if leb log_level level
        then console_file (get_writer (if leb warn level then err_path else log_path))
          ∷ json_stdout
          ∷ []
        else [])
unfolding init_log info_enabled warn_enabled console_enabled keep
init_log-written parsers env warn error log_level level log_path err_path =
    elim (Bool-cases (leb warn level)) [
      | inl bad ↦
          let above : ltb level warn ≡ false = ground arith in
          elim (Bool-cases (leb log_level level)) [
            | inl enough ↦ rw (above, bad, enough) refl
            | inr low ↦ rw (above, bad, low) refl
          ]
      | inr fine ↦
          let below : ltb level warn ≡ true = ground arith in
          elim (Bool-cases (leb log_level level)) [
            | inl enough ↦ rw (below, fine, enough) refl
            | inr low ↦ rw (below, fine, low) refl
          ]
    ]
