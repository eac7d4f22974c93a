-- ===== src/ModuleApi/Samples.antt =====
-- Small module graphs, and the theorems on Sort and Execute applied to them.
use mathlib.Core.List.{Perm}
use lunaship.Base.{
  ℕ, ◌≤◌, ◌↔◌, map, String, false, Option, none, some, List, [], ◌∷◌, ◌≡◌, refl, ◌≢◌, ok, err,
  if◌then◌else◌, ◌==◌, In, arith, keep,
}
use lunaship.Base.Text.{is_empty, trim_space, contains, sort_strings}
use lunaship.ModuleApi.Names.{Module, normalize_dependencies, new_module_wrapper, wrapper_module}
use lunaship.ModuleApi.Names.Laws.{normalize_dependencies-In}
use lunaship.ModuleApi.Graph.{
  cycle, no_fuel, find_node, admit, collect, add_edge, link_one, link_deps, link_all,
}
use lunaship.ModuleApi.Graph.Collected.{enabled_modules}
use lunaship.ModuleApi.Graph.Counting.{occ}
use lunaship.ModuleApi.Kahn.{
  sort, insert_by_index, sort_by_index, lower, release_one, release, drain, initial_queue, conclude,
  sort_nodes, blocked_names,
}
use lunaship.ModuleApi.Order.{IsInitOrder, sort_sound, sort_ends, sort-ne-cycle}
use lunaship.ModuleApi.Execute.{
  InitialisedAll, init_failed, init_all, execute, FailedAt, execute-FailedAt, execute_succeeds,
}

-- A module that writes its name, or fails after that.
abbrev task : String → List String → Option String → Module (List String) String
task name deps failure =
    wrapper_module (new_module_wrapper name "" (λ log. (failure, name ∷ log)) deps)

abbrev config_task : Module (List String) String
config_task = task "config" [] none

abbrev mysql_task : Module (List String) String
mysql_task = task "mysql" ("config" ∷ "" ∷ []) none

abbrev broken_mysql : Module (List String) String
broken_mysql = task "mysql" ("config" ∷ "" ∷ []) (some "refused")

abbrev http_task : Module (List String) String
http_task = task "http" (" mysql" ∷ []) none

abbrev sample : List (Option (Module (List String) String))
sample = some http_task ∷ some config_task ∷ none ∷ some mysql_task ∷ []

abbrev broken : List (Option (Module (List String) String))
broken = some http_task ∷ some broken_mysql ∷ some config_task ∷ []

abbrev rank_of : String → ℕ
rank_of name = if name == "config" then 0 else if name == "mysql" then 1 else 2

sample_sorted : sort sample ≡ ok (config_task ∷ mysql_task ∷ http_task ∷ [])
unfolding sort collect admit find_node link_all link_deps link_one add_edge sort_nodes conclude
    drain release release_one lower initial_queue sort_by_index insert_by_index keep
    normalize_dependencies new_module_wrapper wrapper_module trim_space contains
sample_sorted = refl

-- A cycle of two modules is reported with the sorted names.
cycle_test :
    sort (some (task "log" ("config" ∷ []) none) ∷ some (task "config" ("log" ∷ []) none) ∷ [])
    ≡ err (cycle ("config" ∷ "log" ∷ []))
unfolding sort collect admit find_node link_all link_deps link_one add_edge sort_nodes conclude
    drain release release_one lower initial_queue sort_by_index insert_by_index keep
    normalize_dependencies new_module_wrapper wrapper_module trim_space contains blocked_names
    sort_strings
cycle_test = refl

sort_sound_example :
    Perm (config_task ∷ mysql_task ∷ http_task ∷ []) (enabled_modules sample)
    × IsInitOrder [] (config_task ∷ mysql_task ∷ http_task ∷ [])
sort_sound_example = sort_sound sample (config_task ∷ mysql_task ∷ http_task ∷ []) sample_sorted

sort_ends_example : sort sample ≢ err no_fuel
sort_ends_example = sort_ends sample

sort-ne-cycle_example : sort sample ≢ err (cycle ("http" ∷ []))
unfolding enabled_modules normalize_dependencies new_module_wrapper wrapper_module trim_space
    contains
sort-ne-cycle_example =
    sort-ne-cycle sample rank_of ("http" ∷ []) ((omega arith, tt), (tt, ((omega arith, tt), tt)))

broken_runs : execute broken [] ≡ (some (init_failed "mysql" "refused"), "mysql" ∷ "config" ∷ [])
unfolding execute init_all sort collect admit find_node link_all link_deps link_one add_edge
    sort_nodes conclude drain release release_one lower initial_queue sort_by_index insert_by_index
    keep normalize_dependencies new_module_wrapper wrapper_module trim_space contains
broken_runs = refl

execute-FailedAt_example :
    (ordered : List (Module (List String) String)) × (sort broken ≡ ok ordered)
    × IsInitOrder [] ordered
    × FailedAt ordered [] "mysql" "refused" ("mysql" ∷ "config" ∷ [])
execute-FailedAt_example =
    execute-FailedAt broken [] "mysql" "refused" ("mysql" ∷ "config" ∷ []) broken_runs

sample_runs : execute sample [] ≡ (none, "http" ∷ "mysql" ∷ "config" ∷ [])
unfolding execute init_all sort collect admit find_node link_all link_deps link_one add_edge
    sort_nodes conclude drain release release_one lower initial_queue sort_by_index insert_by_index
    keep normalize_dependencies new_module_wrapper wrapper_module trim_space contains
sample_runs = refl

execute_succeeds_example :
    (ordered : List (Module (List String) String)) × Perm ordered (enabled_modules sample)
    × IsInitOrder [] ordered
    × InitialisedAll ordered [] ("http" ∷ "mysql" ∷ "config" ∷ [])
execute_succeeds_example = execute_succeeds sample [] ("http" ∷ "mysql" ∷ "config" ∷ []) sample_runs

normalize_dependencies-In_example :
    (In "mysql" (normalize_dependencies (" mysql" ∷ "" ∷ "mysql" ∷ []))
      ↔ (In "mysql" (map trim_space (" mysql" ∷ "" ∷ "mysql" ∷ [])) × (is_empty "mysql" ≡ false)))
    × (occ "mysql" (normalize_dependencies (" mysql" ∷ "" ∷ "mysql" ∷ [])) ≤ 1)
normalize_dependencies-In_example = normalize_dependencies-In "mysql" (" mysql" ∷ "" ∷ "mysql" ∷ [])
