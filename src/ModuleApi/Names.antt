-- ===== src/ModuleApi/Names.antt =====
-- module/api.go: the Module interface, the default wrapper, and the normalised dependency lists.
pub mod Laws
use lunaship.Base.{String, Bool, true, false, Option, List, [], ◌∷◌, ◌||◌}
use lunaship.Base.Text.{trim_space, is_empty, contains}

-- What Init does: it reads and changes the state `S` of the process, and may fail with an `E`.
abbrev pub InitFn : Type 0 → Type 0 → Type 0
InitFn S E = S → Option E × S

-- An implementation of the interface, by what its methods answer.
pub record Module (S E : Type 0) : Type 0 where
  pub enabled : Bool
  pub name : String
  pub desc : String
  pub dependencies : List String
  pub init : InitFn S E

-- The loop of normalizeDependencies; `seen` is the key set of its map.
normalize_from : List String → List String → List String
normalize_from seen [] = []
normalize_from seen (dependency ∷ rest) =
    let trimmed = trim_space dependency in
    elim (is_empty trimmed || contains seen trimmed) [
      | true ↦ normalize_from seen rest
      | false ↦ trimmed ∷ normalize_from (trimmed ∷ seen) rest
    ]

unfoldable pub normalize_dependencies : List String → List String
unfolding normalize_from
normalize_dependencies dependencies = normalize_from [] dependencies

pub record DefaultModuleWrapper (S E : Type 0) : Type 0 where
  pub name : String
  pub desc : String
  pub init_fn : InitFn S E
  pub dependencies : List String

unfoldable pub new_module_wrapper :
    {S E : Type 0} → String → String → InitFn S E → List String → DefaultModuleWrapper S E
new_module_wrapper name desc init_fn dependencies = record {
  name = trim_space name;
  desc = trim_space desc;
  init_fn = init_fn;
  dependencies = normalize_dependencies dependencies;
}

-- The methods of the wrapper, as an implementation of the interface.
unfoldable pub wrapper_module : {S E : Type 0} → DefaultModuleWrapper S E → Module S E
wrapper_module m = record {
  enabled = true;
  name = m.name;
  desc = m.desc;
  dependencies = m.dependencies;
  init = m.init_fn;
}
