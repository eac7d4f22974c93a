-- ===== src/ModuleApi/Graph.antt =====
-- module/api.go, the first half of Sort: the nodes of the enabled modules, and the edges between
-- them. A node is shared by the list `nodes` and the map `nodesByName`; its two fields that change,
-- `inDegree` and `dependents`, are kept as maps from the node's name, which is its key.
pub mod Counting
pub mod Links
pub mod Collected
use lunaship.Base.{
  ℕ, zero, suc, ◌+◌, String, Bool, true, false, Option, none, some, List, [], ◌∷◌, ◌++◌,
  if◌then◌else◌, ◌==◌, Result, ok, err, ◌>>=◌,
}
use lunaship.Base.Text.{trim_space, is_empty}
use lunaship.ModuleApi.Names.{Module, normalize_dependencies}

-- The errors of Sort, one for each message; `no_fuel` is the model's own.
pub data SortError : Type 0 where
  empty_name : (index : ℕ) → SortError
  duplicate : (name : String) → SortError
  self_dependency : (name : String) → SortError
  unknown_dependency : (name dependency : String) → SortError
  cycle : (blocked : List String) → SortError
  no_fuel : SortError

-- The fields of a node that are set when it is made; `M` is the type of its module.
pub record Node (M : Type 0) : Type 0 where
  pub source : M
  pub name : String
  pub index : ℕ
  pub depends_on : List String

-- The fields of the nodes that change, by the node's name.
pub record Edges : Type 0 where
  pub in_degree : String → ℕ
  pub dependents : String → List String

abbrev pub no_edges : Edges
no_edges = record { in_degree = λ _. 0; dependents = λ _. [] }

-- A write to a field of the node with the given name.
abbrev pub update {ℓ} : {A : Type ℓ} → (String → A) → String → A → String → A
update f name value other = if name == other then value else f other

module _ {M : Type 0} where
  -- nodesByName[name]
  unfoldable pub find_node : List (Node M) → String → Option (Node M)
  find_node [] name = none
  find_node (n ∷ nodes) name = if n.name == name then some n else find_node nodes name

abbrev pub new_node : {S E : Type 0} → ℕ → Module S E → Node (Module S E)
new_node index m = record {
  source = m;
  name = trim_space m.name;
  index = index;
  depends_on = normalize_dependencies m.dependencies;
}

-- The body of the first loop of Sort; a nil module is `none`.
unfoldable pub admit :
    {S E : Type 0}
    → ℕ
    → Option (Module S E)
    → List (Node (Module S E))
    → Result SortError (List (Node (Module S E)))
admit index none nodes = ok nodes
admit index (some m) nodes = elim m.enabled [
  | false ↦ ok nodes
  | true ↦
      let node = new_node index m in
      elim (is_empty node.name) [
        | true ↦ err (empty_name index)
        | false ↦ elim (find_node nodes node.name) [
          | some _ ↦ err (duplicate node.name)
          | none ↦ ok (nodes ++ node ∷ [])
        ]
      ]
]

unfoldable pub collect :
    {S E : Type 0}
    → ℕ
    → List (Option (Module S E))
    → List (Node (Module S E))
    → Result SortError (List (Node (Module S E)))
collect index [] nodes = ok nodes
collect index (candidate ∷ rest) nodes = admit index candidate nodes >>= collect (suc index) rest

-- `current.inDegree++`, and the current node's name at the end of `prerequisite.dependents`.
unfoldable pub add_edge : String → String → Edges → Edges
add_edge name dependency g = record {
  in_degree = update g.in_degree name (g.in_degree name + 1);
  dependents = update g.dependents dependency (g.dependents dependency ++ name ∷ []);
}

module _ {M : Type 0} (nodes : List (Node M)) where
  -- The body of the second loop: one dependency of one node.
  unfoldable pub link_one : Node M → String → Edges → Result SortError Edges
  link_one current dependency g =
      if dependency == current.name
      then err (self_dependency current.name)
      else elim (find_node nodes dependency) [
        | none ↦ err (unknown_dependency current.name dependency)
        | some _ ↦ ok (add_edge current.name dependency g)
      ]

  unfoldable pub link_deps : Node M → List String → Edges → Result SortError Edges
  link_deps current [] g = ok g
  link_deps current (dependency ∷ rest) g = link_one current dependency g >>= link_deps current rest

  unfoldable pub link_all : List (Node M) → Edges → Result SortError Edges
  link_all [] g = ok g
  link_all (current ∷ rest) g = link_deps current current.depends_on g >>= link_all rest
