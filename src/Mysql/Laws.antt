-- ===== src/Mysql/Laws.antt =====
-- mysql/mysql_logger.go: how the level of the logger and the error of a statement decide its line.
use lunaship.Base.{
  some, ◌≢◌, List, ℕ, ◌≤◌, String, Bool, false, Option, none, ◌≡◌, refl, ◌⊎◌, inl, inr, arith, ltb,
  Bool-cases, if◌then◌else◌,
}
use lunaship.Base.Int.{ℤ}
use lunaship.Telemetry.{GoContext, LineLevel, LogLine, error_line, warn_line, info_line}
use lunaship.Log.{Field}
use lunaship.Telemetry.{Scalar}
use lunaship.Mysql.Logger.{
  GormLevels, GormLogger, log_mode, line_at, emits, is_slow_query, sql_fields, trace,
  emit_trace_span,
}

-- The first logger writes no more than the second one.
abbrev pub IsQuieter : Option LogLine → Option LogLine → Type 0
IsQuieter quiet loud = (quiet ≡ none) ⊎ (loud ≡ quiet)

line_at-IsQuieter :
    (l : GormLogger) (a b : ℕ) (ctx : GoContext) (least : ℕ) (level : LineLevel) (message : String)
    (fields : List (Field Scalar))
    → a ≤ b
    → IsQuieter
        (line_at (log_mode a l) ctx least level message fields)
        (line_at (log_mode b l) ctx least level message fields)
unfolding log_mode
line_at-IsQuieter l a b ctx least level message fields le = elim (Bool-cases (ltb a least)) [
  | inl below ↦ inl (rw below refl)
  | inr enough ↦ let above : ltb b least ≡ false = ground arith in inr (rw (enough, above) refl)
]

-- The error that the span of a statement is to record: none for a statement without an error, or one that
-- found no record.
abbrev pub recorded : {E : Type 0} → (E → Bool) → Option E → Option E
recorded is_not_found none = none
recorded is_not_found (some e) = if is_not_found e then none else some e

-- A line tells an error exactly when the span records one.
abbrev pub AgreesWith : {E : Type 0} → Option E → Option LogLine → Type 0
AgreesWith error none = Unit
AgreesWith none (some line) = line.level ≢ error_line
AgreesWith (some e) (some line) = line.level ≡ error_line

line_at-error :
    {E : Type 0} (e : E) (l : GormLogger) (ctx : GoContext) (least : ℕ)
    (fields : List (Field Scalar))
    → AgreesWith (some e) (line_at l ctx least error_line "SQL" fields)
line_at-error e l ctx least fields = elim (Bool-cases (ltb l.log_level least)) [
  | inl below ↦ rw (below) tt
  | inr enough ↦ rw (enough) refl
]

line_at-fine :
    (E : Type 0) (l : GormLogger) (ctx : GoContext) (least : ℕ) (level : LineLevel)
    (fields : List (Field Scalar))
    → level ≢ error_line
    → AgreesWith {E = E} none (line_at l ctx least level "SQL" fields)
line_at-fine E l ctx least level fields other = elim (Bool-cases (ltb l.log_level least)) [
  | inl below ↦ rw (below) tt
  | inr enough ↦ rw (enough) other
]

module _ {E : Type 0} (levels : GormLevels) (error_text : E → String)
    (is_not_found : E → Bool) where
  recorded-emits :
      (l : GormLogger) (error : Option E)
      → (if emits levels l error_text is_not_found error then error else none)
        ≡ recorded is_not_found error
  recorded-emits l none = refl
  recorded-emits l (some e) = ground (arith, Bool-cases (is_not_found e))

  fine-AgreesWith :
      (l : GormLogger) (ctx : GoContext) (sql : String) (duration : ℤ)
      → AgreesWith {E = E} none (
          if is_slow_query levels l error_text is_not_found duration
          then line_at l ctx levels.warn warn_line "SQL" (
              sql_fields levels l sql duration
                (is_slow_query levels l error_text is_not_found duration))
          else line_at l ctx levels.info info_line "SQL" (
              sql_fields levels l sql duration
                (is_slow_query levels l error_text is_not_found duration)))
  fine-AgreesWith l ctx sql duration =
      elim (Bool-cases (is_slow_query levels l error_text is_not_found duration)) [
        | inl slow ↦ rw (slow) (line_at-fine E l ctx levels.warn warn_line _ (λ e. cc))
        | inr quick ↦ rw (quick) (line_at-fine E l ctx levels.info info_line _ (λ e. cc))
      ]

  line-AgreesWith :
      (l : GormLogger) (ctx : GoContext) (sql : String) (duration : ℤ) (error : Option E)
      → AgreesWith
          (recorded is_not_found error)
          (trace levels l error_text is_not_found ctx sql duration error).1
  unfolding trace
  line-AgreesWith l ctx sql duration none = fine-AgreesWith l ctx sql duration
  line-AgreesWith l ctx sql duration (some e) = elim (Bool-cases (is_not_found e)) [
    | inl missing ↦ rw (missing) (fine-AgreesWith l ctx sql duration)
    | inr bad ↦ rw (bad) (line_at-error e l ctx levels.error _)
  ]

  -- LogMode changes the lines only, and a lower level only leaves lines out: the span of a statement
  -- is the same at every level, and what is written at one level is written at each higher one. The
  -- span records the error of the statement, unless there is none or it is that no record was found, and
  -- a line that is written is an error line exactly when the span records an error.
  pub trace-log_mode :
      (l : GormLogger) (a b : ℕ) (ctx : GoContext) (sql : String) (duration : ℤ) (error : Option E)
      → a ≤ b
      → ((trace levels (log_mode a l) error_text is_not_found ctx sql duration error).0
          ≡ (trace levels (log_mode b l) error_text is_not_found ctx sql duration error).0)
        × IsQuieter
            (trace levels (log_mode a l) error_text is_not_found ctx sql duration error).1
            (trace levels (log_mode b l) error_text is_not_found ctx sql duration error).1
        × ((trace levels (log_mode a l) error_text is_not_found ctx sql duration error).0.error
            ≡ recorded is_not_found error)
        × AgreesWith
            (recorded is_not_found error)
            (trace levels (log_mode a l) error_text is_not_found ctx sql duration error).1
  unfolding trace emit_trace_span log_mode sql_fields
  trace-log_mode l a b ctx sql duration error le =
      let slow = is_slow_query levels l error_text is_not_found duration in
      (
        refl,
        elim (Bool-cases (emits levels l error_text is_not_found error)) [
          | inl shown ↦ rw shown (line_at-IsQuieter l a b ctx levels.error error_line "SQL" _ le)
          | inr hidden ↦ elim (Bool-cases slow) [
            | inl late ↦
                rw (hidden, late) (line_at-IsQuieter l a b ctx levels.warn warn_line "SQL" _ le)
            | inr quick ↦
                rw (hidden, quick) (line_at-IsQuieter l a b ctx levels.info info_line "SQL" _ le)
          ]
        ],
        recorded-emits l error,
        line-AgreesWith (log_mode a l) ctx sql duration error,
      )
