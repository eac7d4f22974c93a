-- ===== src/Infra/Pprof/Serve.antt =====
-- infra/pprof.go: how the profiler is served: the registration of its metric and of its handlers, the
-- response that they write, the static server, and requests that come one after another. net/http and
-- prometheus are known by the calls that they get and by their answers.
use lunaship.Base.{
  ℕ, String, Bool, true, false, Option, none, some, List, [], ◌∷◌, ◌++◌, ◌≡◌, refl, All, Bool-cases,
  Option-cases, inl, inr, if◌then◌else◌,
}
use lunaship.Base.Text.{trim_space, str_or_default}
use lunaship.Telemetry.{
  Collector, counter_vec, LineLevel, error_line, Registered, registered, already_registered,
  refused,
}
use lunaship.Infra.Pprof.{
  state_string, running, dumping, Call, Platform, Manager, StartEnv, StopEnv, new_dynamic_pprof,
}
use lunaship.Infra.Pprof.Start.{compare_and_swap}
use lunaship.Infra.Pprof.Stop.{stop_body, stop}
use lunaship.Infra.Pprof.Handlers.{
  ControlResponse, Reply, not_allowed, json, allow_pprof_control_method, handle_start, handle_stop,
}
use lunaship.Infra.Pprof.Laws.{IsConsistent, start-IsConsistent, stop-IsConsistent}

-- DynamicPprof.State
unfoldable pub state : Manager → String
state m = state_string m.state

-- registerPprofCollector, by the answer of prometheus.Register; `some` is the panic.
unfoldable pub register_pprof_collector : {X : Type 0} → Registered X → Option X
register_pprof_collector registered = none
register_pprof_collector already_registered = none
register_pprof_collector (refused x) = some x

abbrev pub pprof_dump_failures_total : Collector
pprof_dump_failures_total = record {
  kind = counter_vec;
  name = "lunaship_pprof_dump_failures_total";
  help = "Total number of pprof dump failures by profile type.";
  labels = "profile" ∷ [];
}

-- InitPprofServer; `done` is pprofInitOnce, which a panic of its function also sets, and `register`
-- prometheus.Register. Without a panic there is a manager.
unfoldable pub init_pprof_server :
    {X : Type 0}
    → (done : Bool) → (register : Collector → Registered X) → (addr dump_dir app_name : String)
    → Option X × Option Manager × Bool
init_pprof_server true register addr dump_dir app_name =
    (none, some (new_dynamic_pprof addr dump_dir app_name), true)
init_pprof_server false register addr dump_dir app_name =
    elim (register_pprof_collector (register pprof_dump_failures_total)) [
      | some x ↦ (some x, none, true)
      | none ↦ (none, some (new_dynamic_pprof addr dump_dir app_name), true)
    ]

-- The handlers of the manager, and those of net/http/pprof.
pub data Route : Type 0 where
  start_route stop_route index cmdline profile symbol trace : Route

-- RegisterHandlers on a mux that is held as its patterns; none is the nil mux.
unfoldable pub register_handlers : Option (List (String × Route)) → Option (List (String × Route))
register_handlers none = none
register_handlers (some mux) =
    some (mux ++ ("/pprof/start", start_route) ∷ ("/pprof/stop", stop_route) ∷ [])

unfoldable pub new_pprof_serve_mux : List (String × Route)
new_pprof_serve_mux =
    ("/debug/pprof/", index)
    ∷ ("/debug/pprof/cmdline", cmdline)
    ∷ ("/debug/pprof/profile", profile)
    ∷ ("/debug/pprof/symbol", symbol)
    ∷ ("/debug/pprof/trace", trace)
    ∷ []

-- What the goroutine of InitGopprof does.
pub record StaticServer : Type 0 where
  pub addr : String
  pub mux : List (String × Route)
  pub lines : List (LineLevel × String)

-- pprofLogger, which gives a silent logger if there is no global one: the lines that are written.
abbrev pprof_lines : Bool → List (LineLevel × String) → List (LineLevel × String)
pprof_lines has_logger lines = if has_logger then lines else []

-- The line for the error of ListenAndServe.
abbrev end_lines : {E : Type 0} → Option E → List (LineLevel × String)
end_lines none = []
end_lines (some e) = (error_line, "failed to start static pprof") ∷ []

-- InitGopprof: its answer, and what the goroutine that it starts does; `listen` is ListenAndServe.
unfoldable pub init_gopprof :
    {E : Type 0} → (has_logger : Bool) → (String → Option E) → String → Option E × StaticServer
init_gopprof has_logger listen addr =
    let at = str_or_default (trim_space addr) ":6060" in
    (
      none,
      record {
        addr = at;
        mux = new_pprof_serve_mux;
        lines = pprof_lines has_logger (end_lines (listen at));
      },
    )

-- The calls of http.ResponseWriter.
pub data WriterCall (E : Type 0) : Type 0 where
  set_header : (key value : String) → WriterCall E
  write_header : (status : ℕ) → WriterCall E
  encode : ControlResponse E → WriterCall E

unfoldable pub write_pprof_response : {E : Type 0} → ℕ → ControlResponse E → List (WriterCall E)
write_pprof_response status response =
    set_header "Content-Type" "application/json" ∷ write_header status ∷ encode response ∷ []

-- The two kinds of requests, each with its method and the answers that its calls will get.
pub data ControlRequest (E : Type 0) : Type 0 where
  to_start : (method : String) → StartEnv E → ControlRequest E
  to_stop : (method : String) → StopEnv E → ControlRequest E

module _ {E : Type 0} (os : Platform) where
  unfoldable pub serve_request : ControlRequest E → Manager → Reply E × Manager × List Call
  serve_request (to_start method env) m = handle_start os env method m
  serve_request (to_stop method env) m = handle_stop os env method m

  -- The replies to requests that come one after another, each with the manager behind it.
  unfoldable pub serve_requests : List (ControlRequest E) → Manager → List (Reply E × Manager)
  serve_requests [] m = []
  serve_requests (r ∷ rs) m =
      let (reply, m', calls) = serve_request r m in (reply, m') ∷ serve_requests rs m'

  -- A response in JSON has the state of the manager.
  abbrev pub ReportsState : Reply E → Manager → Type 0
  ReportsState (not_allowed allow) m = Unit
  ReportsState (json status response) m = response.state ≡ state m

  start-Sound :
      (method : String) (env : StartEnv E) (m : Manager)
      → IsConsistent m
      → IsConsistent (handle_start os env method m).1
        × ReportsState (handle_start os env method m).0 (handle_start os env method m).1
  unfolding handle_start state
  start-Sound method env m h = elim (Bool-cases (allow_pprof_control_method method)) [
    | inl allowed ↦ rw (allowed, handle_start) (start-IsConsistent os env m h, refl)
    | inr other ↦ rw (other, handle_start) (h, tt)
  ]

  stop_result-state :
      (env : StopEnv E) (m : Manager)
      → (stop os env m).result.state ≡ state_string (stop os env m).manager.state
  unfolding stop stop_body
  stop_result-state env m = elim (Option-cases (compare_and_swap m running dumping)) [
    | inl lost ↦ rw (lost, stop) refl
    | inr (m', won) ↦ rw (won, stop) refl
  ]

  stop-Sound :
      (method : String) (env : StopEnv E) (m : Manager)
      → IsConsistent m
      → IsConsistent (handle_stop os env method m).1
        × ReportsState (handle_stop os env method m).0 (handle_stop os env method m).1
  unfolding handle_stop state
  stop-Sound method env m h = elim (Bool-cases (allow_pprof_control_method method)) [
    | inl allowed ↦
        rw (allowed, handle_stop) (stop-IsConsistent os env m h, stop_result-state env m)
    | inr other ↦ rw (other, handle_stop) (h, tt)
  ]

  -- Whatever requests come one after another to a consistent manager, with whatever methods and whatever
  -- fails while they are served, behind each of them the manager is consistent: stopped with nothing open,
  -- or running with everything open; and each response in JSON has the state of the manager behind it.
  pub requests-Sound :
      (rs : List (ControlRequest E)) (m : Manager)
      → IsConsistent m
      → All (λ q. IsConsistent q.1 × ReportsState q.0 q.1) (serve_requests rs m)
  unfolding serve_requests serve_request
  requests-Sound [] m h = tt
  requests-Sound (to_start method env ∷ rs) m h =
      let sound = start-Sound method env m h in (sound, requests-Sound rs _ sound.0)
  requests-Sound (to_stop method env ∷ rs) m h =
      let sound = stop-Sound method env m h in (sound, requests-Sound rs _ sound.0)
