-- ===== src/Log/Levels.antt =====
-- log/log.go: which of InitLog's outputs an entry reaches. Levels are zap's numbers, moved so that
-- they are not negative; `warn` is that of WarnLevel.
use lunaship.Base.{ℕ, Bool, ◌&&◌, ltb, leb}

module _ (warn threshold : ℕ) where
  -- infoLevel, of the core that writes logPath.
  unfoldable pub info_enabled : ℕ → Bool
  info_enabled level = ltb level warn && leb threshold level

  -- warnLevel, of the core that writes errPath.
  unfoldable pub warn_enabled : ℕ → Bool
  warn_enabled level = leb warn level && leb threshold level

  -- The core that writes to the standard output.
  unfoldable pub console_enabled : ℕ → Bool
  console_enabled level = leb threshold level

  -- The tee: the log file, the error file and the standard output.
  unfoldable pub outputs : ℕ → Bool × Bool × Bool
  outputs level = (info_enabled level, warn_enabled level, console_enabled level)
