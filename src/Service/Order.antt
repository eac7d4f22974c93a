-- ===== src/Service/Order.antt =====
-- service/setup.go: the order in which the default modules are started.
use lunaship.Base.{String, List, [], ◌∷◌, ◌≡◌, refl, Result, ok, err, map, keep}
use lunaship.Base.Text.{trim_space, contains}
use lunaship.ModuleApi.Names.{Module, normalize_dependencies, new_module_wrapper, wrapper_module}
use lunaship.ModuleApi.Graph.{find_node, admit, collect, add_edge, link_one, link_deps, link_all}
use lunaship.ModuleApi.Kahn.{
  sort, insert_by_index, sort_by_index, lower, release_one, release, drain, initial_queue, conclude,
  sort_nodes,
}
use lunaship.Service.Bootstrap.{Libraries, build_default_init_modules}

abbrev pub names_of : {S E X : Type 0} → Result X (List (Module S E)) → Result X (List String)
names_of (ok ms) = ok (map (λ m. m.name) ms)
names_of (err e) = err e

module _ {B W F : Type 0} (libs : Libraries B W F) where
  -- Sort puts the default modules in the order config, runtime-metadata, log, tracing, redis, mysql,
  -- kafka, metrics, pprof, whatever the libraries do.
  pub default_modules-sorted :
      names_of (sort (build_default_init_modules libs))
      ≡ ok (
          "config" ∷ "runtime-metadata" ∷ "log" ∷ "tracing" ∷ "redis" ∷ "mysql" ∷ "kafka"
          ∷ "metrics" ∷ "pprof" ∷ [])
  unfolding build_default_init_modules sort collect admit find_node link_all link_deps link_one
      add_edge sort_nodes conclude drain release release_one lower initial_queue sort_by_index
      insert_by_index keep normalize_dependencies new_module_wrapper wrapper_module trim_space
      contains
  default_modules-sorted = refl
