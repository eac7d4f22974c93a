-- ===== src/Config/App.antt =====
-- config/app_section.go: the section `app`.
use lunaship.Base.{String, Bool, true, false, not, List, [], ◌∷◌, ◌≡◌, ◌||◌, ◌==◌, if◌then◌else◌}
use Prim.Native.Char.{Char}
use lunaship.Base.Text.{trim_space, to_lower, is_empty, contains}
use lunaship.ConfigParse.{Problems}
use lunaship.ConfigParse.Keys.{ordered_keys}
use lunaship.Config.Report.{report, IsClean, report-IsClean, one_of, of_not, neither, of_else}

-- float64, and the functions of the package `math` that are called; `literal` gives the value of a
-- literal of the source.
pub record Floats (F : Type 0) : Type 0 where
  pub literal : String → F
  pub less : F → F → Bool
  pub sub : F → F → F
  pub mul : F → F → F
  pub abs : F → F
  pub round : F → F

pub record AppLogConfig : Type 0 where
  pub level : String

pub record AppTraceConfig (F : Type 0) : Type 0 where
  pub enabled : Bool
  pub endpoint : String
  pub protocol : String
  pub trace_endpoint : String
  pub sample_rate : F

pub record AppPprofConfig : Type 0 where
  pub mode : String
  pub enabled : Bool

pub record AppSection (F : Type 0) : Type 0 where
  pub app_name : String
  pub log : AppLogConfig
  pub trace : AppTraceConfig F
  pub pprof : AppPprofConfig

abbrev pub valid_log_levels : List String
valid_log_levels = "debug" ∷ "info" ∷ "warn" ∷ "error" ∷ []

abbrev pub valid_pprof_modes : List String
valid_pprof_modes = "server" ∷ "dynamic" ∷ []

module _ {F : Type 0} (float : Floats F) where
  unfoldable pub default_app_section : AppSection F
  default_app_section = record {
    app_name = "";
    log = record { level = "info" };
    trace = record {
      enabled = false;
      endpoint = "";
      protocol = "http";
      trace_endpoint = "";
      sample_rate = float.literal "0.001";
    };
    pprof = record { mode = "dynamic"; enabled = true };
  }

  unfoldable pub has_three_decimal_precision : F → Bool
  has_three_decimal_precision value =
      let scaled = float.mul value (float.literal "1000") in
      float.less (float.abs (float.sub scaled (float.round scaled))) (float.literal "1e-9")

-- strings.ToLower of strings.TrimSpace.
abbrev pub lowered : (Char → Char) → String → String
lowered lower s = to_lower lower (trim_space s)

module _ (lower : Char → Char) {F : Type 0} where
  unfoldable pub normalize_app : AppSection F → AppSection F
  normalize_app c = record {
    app_name = trim_space c.app_name;
    log = record { level = lowered lower c.log.level };
    trace = record {
      enabled = c.trace.enabled;
      endpoint = trim_space c.trace.endpoint;
      protocol = lowered lower c.trace.protocol;
      trace_endpoint = trim_space c.trace.trace_endpoint;
      sample_rate = c.trace.sample_rate;
    };
    pprof = record { mode = lowered lower c.pprof.mode; enabled = c.pprof.enabled };
  }

  module _ (float : Floats F) where
    abbrev out_of_range : F → Bool
    out_of_range rate =
        float.less rate (float.literal "0.001") || float.less (float.literal "1") rate

    -- The two checks of the sample rate, of which at most one reports.
    abbrev validate_rate : F → Problems → Problems
    validate_rate rate problems =
        report (if out_of_range rate then false else not (has_three_decimal_precision float rate))
          "app.trace.sample_rate" "must use at most 3 decimal places"
          (report (out_of_range rate) "app.trace.sample_rate" "must be between 0.001 and 1.0"
            problems)

    unfoldable pub validate_app : AppSection F → Problems → Problems
    validate_app c problems =
        report (not (contains valid_pprof_modes (lowered lower c.pprof.mode))) "app.pprof.mode"
          (one_of (ordered_keys valid_pprof_modes))
          (validate_rate c.trace.sample_rate (
            report (not (lowered lower c.trace.protocol == "http"))
              "app.trace.otel_exporter_otlp_protocol" "must be \"http\" in v1"
              (report (not (contains valid_log_levels (lowered lower c.log.level))) "app.log.level"
                (one_of (ordered_keys valid_log_levels))
                (report (is_empty (trim_space c.app_name)) "app.app_name" "is required" problems))))

    -- What the section has to satisfy.
    pub record IsValidApp (c : AppSection F) : Type 0 where
      pub named : is_empty (trim_space c.app_name) ≡ false
      pub level : contains valid_log_levels (lowered lower c.log.level) ≡ true
      pub protocol : (lowered lower c.trace.protocol == "http") ≡ true
      pub at_least : float.less c.trace.sample_rate (float.literal "0.001") ≡ false
      pub at_most : float.less (float.literal "1") c.trace.sample_rate ≡ false
      pub precise : has_three_decimal_precision float c.trace.sample_rate ≡ true
      pub mode : contains valid_pprof_modes (lowered lower c.pprof.mode) ≡ true

    pub validate_app-IsValidApp :
        (c : AppSection F) (problems : Problems)
        → IsClean (validate_app c problems)
        → IsClean problems × IsValidApp c
    unfolding validate_app
    validate_app-IsValidApp c problems e =
        let (e₁, mode) = (report-IsClean _ _ _ _).0 e in
        let (e₂, precise) = (report-IsClean _ _ _ _).0 e₁ in
        let (e₃, range) = (report-IsClean _ _ _ _).0 e₂ in
        let (e₄, protocol) = (report-IsClean _ _ _ _).0 e₃ in
        let (e₅, level) = (report-IsClean _ _ _ _).0 e₄ in
        let (e₆, named) = (report-IsClean _ _ _ _).0 e₅ in
        (
          e₆,
          record {
            named = named;
            level = of_not _ level;
            protocol = of_not _ protocol;
            at_least = (neither _ _ range).0;
            at_most = (neither _ _ range).1;
            precise = of_else (out_of_range c.trace.sample_rate) _ range precise;
            mode = of_not _ mode;
          },
        )

    pub IsValidApp-validate_app :
        (c : AppSection F) (problems : Problems)
        → IsClean problems
        → IsValidApp c
        → IsClean (validate_app c problems)
    unfolding validate_app
    IsValidApp-validate_app c problems e v =
        rw (v.named, v.level, v.protocol, v.at_least, v.at_most, v.precise, v.mode, e)
