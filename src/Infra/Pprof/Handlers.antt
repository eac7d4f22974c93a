-- ===== src/Infra/Pprof/Handlers.antt =====
-- infra/pprof.go: the HTTP handlers that start and stop the profiler.
use lunaship.Base.{ℕ, String, Bool, true, false, Option, none, some, List, [], ◌∷◌, ◌||◌, ◌==◌}
use lunaship.Infra.Pprof.{state_string, Call, PprofError, Platform, Manager, StartEnv, StopEnv}
use lunaship.Infra.Pprof.Start.{start}
use lunaship.Infra.Pprof.Stop.{stop}

-- pprofControlResponse; the texts of the joined errors are left as the errors.
pub record ControlResponse (E : Type 0) : Type 0 where
  pub state : String
  pub changed : Bool
  pub addr : String
  pub dumped_files : List String
  pub errors : List (PprofError E)

pub data Reply (E : Type 0) : Type 0 where
  not_allowed : (allow : String) → Reply E
  json : (status : ℕ) → ControlResponse E → Reply E

unfoldable pub allow_pprof_control_method : String → Bool
allow_pprof_control_method method = method == "GET" || method == "POST"

abbrev listed : {E : Type 0} → Option (PprofError E) → List (PprofError E)
listed none = []
listed (some e) = e ∷ []

-- http.StatusOK, or http.StatusInternalServerError for an error.
abbrev status_of : {E : Type 0} → List (PprofError E) → ℕ
status_of [] = 200
status_of (e ∷ es) = 500

module _ {E : Type 0} (os : Platform) where
  unfoldable pub handle_start : StartEnv E → String → Manager → Reply E × Manager × List Call
  handle_start env method m =
      let outcome = start os env m in
      let errors = listed outcome.error in
      elim (allow_pprof_control_method method) [
        | false ↦ (not_allowed "GET, POST", m, [])
        | true ↦ (
          json (status_of errors) (record {
            state = state_string outcome.manager.state;
            changed = outcome.changed;
            addr = m.addr;
            dumped_files = [];
            errors = errors;
          }),
          outcome.manager,
          outcome.calls,
        )
      ]

  unfoldable pub handle_stop : StopEnv E → String → Manager → Reply E × Manager × List Call
  handle_stop env method m =
      let outcome = stop os env m in
      elim (allow_pprof_control_method method) [
        | false ↦ (not_allowed "GET, POST", m, [])
        | true ↦ (
          json (status_of outcome.errors) (record {
            state = outcome.result.state;
            changed = outcome.result.changed;
            addr = "";
            dumped_files = outcome.result.dumped_files;
            errors = outcome.errors;
          }),
          outcome.manager,
          outcome.calls,
        )
      ]
