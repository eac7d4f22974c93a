-- ===== src/Service/Run.antt =====
-- service/setup.go: Run with its deferred calls, serve, and ServerConfig. What is called in order is a
-- list; the goroutine that listens is known by its log line.
use lunaship.Base.{String, Bool, Option, none, some, List, [], ◌∷◌, ◌++◌, if◌then◌else◌}
use lunaship.ModuleApi.Names.{Module}
use lunaship.ModuleApi.Execute.{ExecuteError}
use lunaship.Telemetry.{LineLevel, info_line, error_line}
use lunaship.Service.Bootstrap.{BootstrapState, InitError, Libraries, bootstrap}

pub record ServerConfig : Type 0 where
  pub service_id : String
  pub service_version : String
  pub service_openapi_doc : String
  pub deploy_env : String

-- ServerConfig.LoadFromEnv, which never fails.
unfoldable pub load_server_config : (String → String) → ServerConfig → ServerConfig
load_server_config env sc = record sc {
  service_id = env "SERVICE_ID";
  service_version = env "SERVICE_VERSION";
  service_openapi_doc = env "SERVICE_DOC";
}

-- Service, without its handler.
pub record Service : Type 0 where
  pub path : String
  pub binding_address : String

-- What Run does with the server, the profiler, the log and the tracing.
pub data RunCall : Type 0 where
  handle_path : (path : String) → RunCall
  register_routes stop_pprof close_tracing sync_log await_done shutdown : RunCall
  listen : (addr : String) → RunCall
  line : LineLevel → (message : String) → RunCall

-- How ListenAndServe ends.
pub data ListenEnd : Type 0 where
  server_closed listen_failed : ListenEnd

-- The line that the listening goroutine writes at its end.
unfoldable pub listen_end_line : ListenEnd → RunCall
listen_end_line server_closed = line info_line "server graceful shutdown"
listen_end_line listen_failed = line error_line "server down"

abbrev call_if : Bool → RunCall → List RunCall
call_if b call = if b then call ∷ [] else []

-- serve; `routes` and `stop` tell whether the functions are there, `shutdown_fails` is the answer of
-- the server's Shutdown.
unfoldable pub serve : Service → (routes stop shutdown_fails : Bool) → List RunCall
serve s routes stop shutdown_fails =
    handle_path s.path ∷ call_if routes register_routes
    ++ line info_line "server up"
      ∷ listen s.binding_address
      ∷ await_done
      ∷ line info_line "shutting down server"
      ∷ shutdown
      ∷ call_if shutdown_fails (line error_line "failed to shutdown")
    ++ call_if stop stop_pprof

-- The deferred calls of Run, the last one first; `has_logger` tells whether there is a global logger.
unfoldable pub deferred : (log_ready has_logger tracing_ready : Bool) → List RunCall
deferred log_ready has_logger tracing_ready =
    (if log_ready
      then (if has_logger then line info_line "server done" ∷ sync_log ∷ [] else [])
      else [])
    ++ call_if tracing_ready close_tracing

module _ {B W F : Type 0} (libs : Libraries B W F) where
  abbrev served :
      Option (ExecuteError InitError) → Service → BootstrapState W F → Bool → List RunCall
  served (some e) s state shutdown_fails = []
  served none s state shutdown_fails = serve s state.routes state.stop_pprof shutdown_fails

  -- Run: the error with which it panics, and the calls that it has made behind the modules.
  unfoldable pub run :
      Service
      → List (Option (Module (BootstrapState W F) InitError))
      → (String → String)
      → W
      → (has_logger : W → Bool) → (shutdown_fails : Bool)
      → Option (ExecuteError InitError) × List RunCall
  run s extra env world has_logger shutdown_fails =
      let (error, state) = bootstrap libs extra env world in
      (
        error,
        served error s state shutdown_fails
            ++ deferred state.log_ready (has_logger state.world) state.tracing_ready,
      )
