-- ===== src/Service/Bootstrap.antt =====
-- service/setup.go: buildDefaultInitModules and the Init functions of its modules. The libraries
-- that they start are parameters; `W` is what those change.
use lunaship.Base.{
  String, Bool, true, false, Option, none, some, List, [], ◌∷◌, ◌++◌, Result, ok, err,
  if◌then◌else◌, ◌==◌,
}
use lunaship.Base.Text.{trim_space, str_or_default}
use lunaship.Config.App.{lowered}
use lunaship.Config.Instances.{MysqlConfig, MysqlInstance, RedisInstance}
use lunaship.Config.Load.{LoadError, AppConfig, Loader, load}
use lunaship.ModuleApi.Names.{Module, InitFn, new_module_wrapper, wrapper_module}
use lunaship.ModuleApi.Execute.{ExecuteError, execute}
use lunaship.Service.Instance.{Ambiguous, select_bootstrap_instance}
use lunaship.Infra.Tracing.{TraceConfig}
use lunaship.Service.Settings.{
  Level, info_level, apply_runtime_metadata, log_level_from_config, trace_config_from_app_config,
  resolve_app_config_path,
}

-- What an Init function fails with. `nil_config` stands for the panic of a read through the nil
-- configuration, `caused` for an error of a library.
pub data InitError : Type 0 where
  load_failed : LoadError → InitError
  nil_config : InitError
  ambiguous : Ambiguous → InitError
  caused : String → InitError

-- bootstrapState, the environment, and the world of the libraries. `routes` and `stop_pprof` tell
-- whether the function is there.
pub record BootstrapState (W F : Type 0) : Type 0 where
  pub cfg_path : String
  pub cfg : Option (AppConfig F)
  pub routes : Bool
  pub stop_pprof : Bool
  pub log_ready : Bool
  pub tracing_ready : Bool
  pub env : String → String
  pub world : W

-- The libraries; an answer is an error, or nothing.
pub record Libraries (B W F : Type 0) : Type 0 where
  pub loader : Loader B F
  pub at_most : F → F → Bool
  pub init_log : (log_file err_file : String) → Level → W → W
  pub init_tracing : TraceConfig F → W → Option String × W
  pub init_redis : RedisInstance → W → Option String × W
  pub init_mysql : MysqlInstance → MysqlConfig → W → Option String × W
  pub init_metrics : W → W
  pub init_gopprof : (addr : String) → W → Option String × W

module _ {B W F : Type 0} (libs : Libraries B W F) where
  abbrev State : Type 0
  State = BootstrapState W F

  abbrev Init : Type 0
  Init = InitFn (BootstrapState W F) InitError

  abbrev log_with : State → Level → W
  log_with s level =
      libs.init_log (str_or_default (s.env "LOG_FILE") "./tmp/log.log")
        (str_or_default (s.env "ERR_FILE") "./tmp/err.log") level s.world

  -- loadAppConfig; a failure is logged. The global configuration, which the modules do not read, is
  -- left out.
  unfoldable pub init_config : Init
  init_config s = elim (load libs.loader s.cfg_path) [
    | err e ↦ (some (load_failed e), record s { world = log_with s info_level })
    | ok cfg ↦ (none, record s { cfg = some cfg })
  ]

  -- The environment after applyRuntimeMetadata, which returns at once for the nil configuration.
  abbrev env_with : Option (AppConfig F) → (String → String) → String → String
  env_with none env = env
  env_with (some cfg) env = apply_runtime_metadata cfg.app.app_name env

  unfoldable pub init_runtime_metadata : Init
  init_runtime_metadata s = (none, record s { env = env_with s.cfg s.env })

  unfoldable pub init_log_module : Init
  init_log_module s = elim s.cfg [
    | none ↦ (some nil_config, s)
    | some cfg ↦ (
      none,
      record s {
        log_ready = true;
        world = log_with s (log_level_from_config libs.loader.lower cfg.app.log.level);
      },
    )
  ]

  -- traceConfigFromAppConfig gives a configuration that is not enabled for the nil one, on which
  -- InitTracing does nothing. A failure is only logged.
  unfoldable pub init_tracing_module : Init
  init_tracing_module s = elim s.cfg [
    | none ↦ (none, record s { tracing_ready = true })
    | some cfg ↦
        let answer =
          libs.init_tracing
            (trace_config_from_app_config libs.loader.lower libs.loader.float libs.at_most cfg.app)
            s.world in
        elim answer.0 [
          | some e ↦ (none, record s { world = answer.1 })
          | none ↦ (none, record s { tracing_ready = true; world = answer.1 })
        ]
  ]

  abbrev library_error : Option String → Option InitError
  library_error none = none
  library_error (some e) = some (caused e)

  -- The rest of an Init function that starts the selected instance, if there is one.
  abbrev pub start_selected :
      {T : Type 0}
      → Result Ambiguous (Option (String × T))
      → (T → W → Option String × W)
      → State
      → Option InitError × State
  start_selected (err e) start s = (some (ambiguous e), s)
  start_selected (ok none) start s = (none, s)
  start_selected (ok (some (name, i))) start s =
      let answer = start i s.world in (library_error answer.0, record s { world = answer.1 })

  unfoldable pub init_redis_module : Init
  init_redis_module s = elim s.cfg [
    | none ↦ (none, s)
    | some cfg ↦
        start_selected (select_bootstrap_instance cfg.redis.instances "redis") libs.init_redis s
  ]

  unfoldable pub init_mysql_module : Init
  init_mysql_module s = elim s.cfg [
    | none ↦ (none, s)
    | some cfg ↦
        start_selected (select_bootstrap_instance cfg.mysql.instances "mysql")
          (λ i. libs.init_mysql i cfg.mysql) s
  ]

  -- initKafka only logs a warning.
  unfoldable pub init_kafka_module : Init
  init_kafka_module s = (none, s)

  unfoldable pub init_metrics_module : Init
  init_metrics_module s = (none, record s { world = libs.init_metrics s.world })

  -- initPprof; the panic on an error of InitGopprof is held as the error.
  unfoldable pub init_pprof : AppConfig F → Init
  init_pprof cfg s = elim (lowered libs.loader.lower cfg.app.pprof.mode == "server") [
    | true ↦
        let addr = str_or_default (trim_space (s.env "PPROF_LISTEN_ADDR")) ":6060" in
        let answer = libs.init_gopprof addr s.world in
        (library_error answer.0, record s { routes = false; stop_pprof = false; world = answer.1 })
    | false ↦ (none, record s { routes = true; stop_pprof = true })
  ]

  unfoldable pub init_pprof_module : Init
  unfolding init_pprof
  init_pprof_module s = elim s.cfg [
    | none ↦ (none, s)
    | some cfg ↦ if cfg.app.pprof.enabled then init_pprof cfg s else (none, s)
  ]

  abbrev entry : String → String → Init → List String → Option (Module State InitError)
  entry name desc init deps = some (wrapper_module (new_module_wrapper name desc init deps))

  unfoldable pub build_default_init_modules : List (Option (Module (BootstrapState W F) InitError))
  build_default_init_modules =
      entry "config" "Load app config" init_config []
      ∷ entry "runtime-metadata" "Apply runtime metadata" init_runtime_metadata ("config" ∷ [])
      ∷ entry "log" "Init logging" init_log_module ("config" ∷ "runtime-metadata" ∷ [])
      ∷ entry "tracing" "Init tracing" init_tracing_module ("config" ∷ "log" ∷ [])
      ∷ entry "redis" "Init redis" init_redis_module ("config" ∷ "log" ∷ [])
      ∷ entry "mysql" "Init mysql" init_mysql_module ("config" ∷ "log" ∷ [])
      ∷ entry "kafka" "Init kafka" init_kafka_module ("config" ∷ "log" ∷ [])
      ∷ entry "metrics" "Init metrics" init_metrics_module ("log" ∷ [])
      ∷ entry "pprof" "Init pprof" init_pprof_module ("config" ∷ "log" ∷ [])
      ∷ []

  -- The state in which Run starts.
  unfoldable pub initial_state : (String → String) → W → BootstrapState W F
  initial_state env world = record {
    cfg_path = resolve_app_config_path env;
    cfg = none;
    routes = false;
    stop_pprof = false;
    log_ready = false;
    tracing_ready = false;
    env = env;
    world = world;
  }

  -- Run up to serve: an error is the panic.
  unfoldable pub bootstrap :
      List (Option (Module (BootstrapState W F) InitError))
      → (String → String)
      → W
      → Option (ExecuteError InitError) × BootstrapState W F
  bootstrap extra env world =
      execute (build_default_init_modules ++ extra) (initial_state env world)
