-- ===== src/Service/Wired/Laws.antt =====
-- service/setup.go: what a bootstrap that succeeds leaves behind in the packages that it starts.
use mathlib.Core.List.{append-nil}
use lunaship.Base.{String, none, some, List, [], ◌∷◌, ◌≡◌, ok, ap, ◌∙◌}
use lunaship.Config.Load.{AppConfig, IsValidConfig, load}
use lunaship.ModuleApi.Execute.{execute, execute_sorted, init_all}
use lunaship.ModuleApi.Graph.Collected.{enabled_modules}
use lunaship.ModuleApi.Names.{Module}
use lunaship.Service.Bootstrap.{
  BootstrapState, InitError, build_default_init_modules, initial_state, bootstrap,
}
use lunaship.Service.Instance.{select_bootstrap_instance}
use lunaship.Service.Reads.{default_modules-in_order}
use lunaship.Service.Settings.{log_level_from_config, resolve_app_config_path}
use lunaship.Service.Wired.{World, Outside, wired}
use lunaship.Service.Wired.Steps
use lunaship.Service.Wired.Mysql.{MysqlStarted}

module _ {S E : Type 0} where
  -- Each of the modules succeeds, in turn.
  abbrev AllFine : List (Module S E) → S → Type 0
  AllFine [] s = Unit
  AllFine (m ∷ ms) s = ((m.init s).0 ≡ none) × AllFine ms (m.init s).1

  abbrev final : List (Module S E) → S → S
  final [] s = s
  final (m ∷ ms) s = final ms (m.init s).1

module _ {B S D F : Type 0} (out : Outside B S D F) where
  -- What the packages hold after a bootstrap with the environment `env` from the globals `w`.
  pub record Started (env : String → String) (w : World S D F) (cfg : AppConfig F)
      (s : BootstrapState (World S D F) F) : Type 0 where
    pub loaded : load out.loader (resolve_app_config_path env) ≡ ok cfg
    pub valid : IsValidConfig out.loader cfg
    pub set : s.cfg ≡ some cfg
    pub log : s.world.log ≡ some (log_level_from_config out.loader.lower cfg.app.log.level)
    pub redis :
        Steps.RedisStarted out
          (select_bootstrap_instance cfg.redis.instances "redis")
          w.redis
          s.world.redis
    pub mysql :
        MysqlStarted out cfg.mysql
          (select_bootstrap_instance cfg.mysql.instances "mysql")
          (Steps.database_of out w)
          (Steps.database_of out s.world)

  abbrev pub start_of : (String → String) → World S D F → BootstrapState (World S D F) F
  start_of env w = initial_state (wired out) env w

  abbrev pub defaults : List (Module (BootstrapState (World S D F) F) InitError)
  defaults = enabled_modules (build_default_init_modules (wired out))

  pub bootstrap-init_all :
      (env : String → String) (w : World S D F)
      → bootstrap (wired out) [] env w ≡ init_all defaults (start_of env w)
  unfolding bootstrap execute
  bootstrap-init_all env w =
      ap (λ ms. execute ms (start_of env w)) (append-nil (build_default_init_modules (wired out)))
      ∙ ap (λ r. execute_sorted r (start_of env w)) (default_modules-in_order (wired out))
