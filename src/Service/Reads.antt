-- ===== src/Service/Reads.antt =====
-- service/setup.go: how the default modules read the configuration that the module `config` sets.
use lunaship.Base.{
  String, none, some, List, [], ◌∷◌, ◌≡◌, refl, ◌≢◌, ok, All, arith, Option-cases, inl, inr, sym,
  ◌∙◌, ap, keep,
}
use lunaship.Base.Text.{trim_space, contains}
use lunaship.ModuleApi.Names.{
  Module, InitFn, normalize_dependencies, new_module_wrapper, wrapper_module,
}
use lunaship.ModuleApi.Graph.{find_node, admit, collect, add_edge, link_one, link_deps, link_all}
use lunaship.ModuleApi.Graph.Collected.{enabled_modules}
use lunaship.ModuleApi.Kahn.{
  sort, insert_by_index, sort_by_index, lower, release_one, release, drain, initial_queue, conclude,
  sort_nodes,
}
use lunaship.ModuleApi.Execute.{init_failed, init_all, execute, execute_sorted}
use lunaship.Service.Bootstrap.{
  BootstrapState, InitError, nil_config, Libraries, init_config, init_runtime_metadata,
  init_log_module, init_tracing_module, init_redis_module, init_mysql_module, init_kafka_module,
  init_metrics_module, init_pprof, init_pprof_module, build_default_init_modules,
}

-- An Init function that, when the configuration is there, reads it without a panic and keeps it.
abbrev Keeps : {W F : Type 0} → InitFn (BootstrapState W F) InitError → Type 0
Keeps init =
    (s : BootstrapState _ _)
    → s.cfg ≢ none
    → ((init s).0 ≢ some nil_config) × ((init s).1.cfg ≢ none)

init_all-Keeps :
    {W F : Type 0} (ms : List (Module (BootstrapState W F) InitError)) (s : BootstrapState W F)
    (name : String)
    → All (λ m. Keeps m.init) ms
    → s.cfg ≢ none
    → (init_all ms s).0 ≢ some (init_failed name nil_config)
unfolding init_all
init_all-Keeps [] s name h there = λ e. cc
init_all-Keeps (m ∷ ms) s name h there = elim (Option-cases (m.init s).0) [
  | inl fine ↦ rw (fine, init_all) (init_all-Keeps ms (m.init s).1 name h.1 (h.0 s there).1)
  | inr (e, failed) ↦ rw (failed, init_all) (λ same. ground (arith, (h.0 s there).0))
]

-- The same when the configuration is there only after the first module has succeeded.
init_all-Keeps_first :
    {W F : Type 0} (m : Module (BootstrapState W F) InitError)
    (ms : List (Module (BootstrapState W F) InitError)) (s : BootstrapState W F) (name : String)
    → (m.init s).0 ≢ some nil_config
    → ((m.init s).0 ≡ none → (m.init s).1.cfg ≢ none)
    → All (λ m'. Keeps m'.init) ms
    → (init_all (m ∷ ms) s).0 ≢ some (init_failed name nil_config)
unfolding init_all
init_all-Keeps_first m ms s name first sets h = elim (Option-cases (m.init s).0) [
  | inl fine ↦ rw (fine, init_all) (init_all-Keeps ms (m.init s).1 name h (sets fine))
  | inr (e, failed) ↦ rw (failed, init_all) (λ same. ground arith)
]

module _ {B W F : Type 0} (libs : Libraries B W F) where
  config-fine : (s : BootstrapState W F) → (init_config libs s).0 ≢ some nil_config
  unfolding init_config
  config-fine s = ground arith

  config-sets :
      (s : BootstrapState W F) → (init_config libs s).0 ≡ none → (init_config libs s).1.cfg ≢ none
  unfolding init_config
  config-sets s fine = ground arith

  runtime_metadata-Keeps : Keeps (init_runtime_metadata libs)
  unfolding init_runtime_metadata
  runtime_metadata-Keeps s there = ((λ e. cc), there)

  log-Keeps : Keeps (init_log_module libs)
  unfolding init_log_module
  log-Keeps s there = ground arith

  tracing-Keeps : Keeps (init_tracing_module libs)
  unfolding init_tracing_module
  tracing-Keeps s there = ground arith

  redis-Keeps : Keeps (init_redis_module libs)
  unfolding init_redis_module
  redis-Keeps s there = ground arith

  mysql-Keeps : Keeps (init_mysql_module libs)
  unfolding init_mysql_module
  mysql-Keeps s there = ground arith

  kafka-Keeps : Keeps (init_kafka_module libs)
  unfolding init_kafka_module
  kafka-Keeps s there = ground arith

  metrics-Keeps : Keeps (init_metrics_module libs)
  unfolding init_metrics_module
  metrics-Keeps s there = ground arith

  pprof-Keeps : Keeps (init_pprof_module libs)
  unfolding init_pprof_module init_pprof
  pprof-Keeps s there = ground arith

  pub default_modules-in_order :
      sort (build_default_init_modules libs)
      ≡ ok (enabled_modules (build_default_init_modules libs))
  unfolding build_default_init_modules sort collect admit find_node link_all link_deps link_one
      add_edge sort_nodes conclude drain release release_one lower initial_queue sort_by_index
      insert_by_index keep normalize_dependencies new_module_wrapper wrapper_module trim_space
      contains enabled_modules
  default_modules-in_order = refl

  -- Whatever the state in which the default modules are executed and whatever the libraries answer,
  -- none of them reads the configuration while it is nil.
  pub default_modules-read_config :
      (s : BootstrapState W F) (name : String)
      → (execute (build_default_init_modules libs) s).0 ≢ some (init_failed name nil_config)
  unfolding execute build_default_init_modules enabled_modules new_module_wrapper wrapper_module
  default_modules-read_config s name same =
      init_all-Keeps_first _ _ s name (config-fine s) (config-sets s)
        (
          runtime_metadata-Keeps,
          (
            log-Keeps,
            (
              tracing-Keeps,
              (redis-Keeps, (mysql-Keeps, (kafka-Keeps, (metrics-Keeps, (pprof-Keeps, tt))))),
            ),
          ),
        )
        (ap (λ r. (execute_sorted r s).0) (sym default_modules-in_order) ∙ same)
