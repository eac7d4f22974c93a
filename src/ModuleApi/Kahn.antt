-- ===== src/ModuleApi/Kahn.antt =====
-- module/api.go, the second half of Sort: the loop over the ready nodes.
pub mod Invariant
pub mod Drain
pub mod Loop
pub mod Outcome
use lunaship.Base.{
  ℕ, zero, suc, ◌+◌, ◌-◌, String, Bool, true, false, Option, none, some, List, [], ◌∷◌, ◌++◌,
  if◌then◌else◌, ◌==◌, Result, ok, err, ◌>>=◌, length, keep, map, ltb, leb, eqb,
}
use lunaship.Base.Text.{sort_strings}
use lunaship.ModuleApi.Names.{Module}
use lunaship.ModuleApi.Graph.{
  SortError, cycle, no_fuel, Node, Edges, no_edges, update, find_node, collect, link_all,
}

module _ {M : Type 0} where
  -- slices.SortFunc by the indices, which differ from node to node.
  unfoldable pub insert_by_index : Node M → List (Node M) → List (Node M)
  insert_by_index n [] = n ∷ []
  insert_by_index n (m ∷ ms) = if ltb m.index n.index then m ∷ insert_by_index n ms else n ∷ m ∷ ms

  unfoldable pub sort_by_index : List (Node M) → List (Node M)
  unfolding insert_by_index
  sort_by_index [] = []
  sort_by_index (n ∷ ns) = insert_by_index n (sort_by_index ns)

-- The loop's variables. A node in `ready` is a copy: only `inDegree` changes from here on, and
-- the loop does not read that of a ready node.
pub record Queue (M : Type 0) : Type 0 where
  pub in_degree : String → ℕ
  pub ready : List (Node M)

-- `dependent.inDegree--`, and the node made ready if nothing is left to wait for.
unfoldable pub lower : {M : Type 0} → Node M → Queue M → Queue M
lower dependent q =
    let degree = q.in_degree dependent.name - 1 in
    let in_degree' = update q.in_degree dependent.name degree in
    if eqb degree 0
    then record { in_degree = in_degree'; ready = sort_by_index (q.ready ++ dependent ∷ []) }
    else record { in_degree = in_degree'; ready = q.ready }

module _ {M : Type 0} (nodes : List (Node M)) where
  -- The body of the inner loop. It is run for names of nodes only, so the read through a nil
  -- pointer, which would be a panic, is left without effect.
  unfoldable pub release_one : String → Queue M → Queue M
  release_one name q = elim (find_node nodes name) [ none ↦ q | some dependent ↦ lower dependent q ]

  unfoldable pub release : List String → Queue M → Queue M
  release [] q = q
  release (name ∷ rest) q = release rest (release_one name q)

-- The empty list, or its head and its tail.
abbrev by_head {ℓ κ} : {A : Type ℓ} {B : Type κ} → List A → B → (A → List A → B) → B
by_head [] stop go = stop
by_head (x ∷ xs) stop go = go x xs

module _ {M : Type 0} (nodes : List (Node M)) (dependents : String → List String) where
  -- `for len(ready) > 0`; `none` means that the fuel ran out.
  unfoldable pub drain : ℕ → Queue M → List (Node M) → Option (Queue M × List (Node M))
  drain zero q ordered = none
  drain (suc fuel) q ordered = by_head q.ready (some (q, ordered)) (λ current rest.
      drain fuel (release nodes (dependents current.name) (record q { ready = rest }))
        (ordered ++ current ∷ []))

module _ {M : Type 0} where
  unfoldable pub initial_queue : List (Node M) → Edges → Queue M
  initial_queue nodes g = record {
    in_degree = g.in_degree;
    ready = sort_by_index (keep (λ n. eqb (g.in_degree n.name) 0) nodes);
  }

  unfoldable pub blocked_names : List (Node M) → Queue M → List String
  blocked_names nodes q =
      sort_strings (map (λ n. n.name) (keep (λ n. ltb 0 (q.in_degree n.name)) nodes))

  -- What Sort answers once the loop has ended.
  unfoldable pub conclude :
      List (Node M) → Option (Queue M × List (Node M)) → Result SortError (List (Node M))
  conclude nodes none = err no_fuel
  conclude nodes (some (q, ordered)) =
      if eqb (length ordered) (length nodes)
      then ok ordered
      else err (cycle (blocked_names nodes q))

  unfoldable pub sort_nodes : List (Node M) → Edges → Result SortError (List (Node M))
  sort_nodes nodes g =
      conclude nodes (drain nodes g.dependents (suc (length nodes)) (initial_queue nodes g) [])

unfoldable pub sort :
    {S E : Type 0} → List (Option (Module S E)) → Result SortError (List (Module S E))
sort modules = do
  nodes ← collect 0 modules []
  g ← link_all nodes nodes no_edges
  ordered ← sort_nodes nodes g
  ok (map (λ n. n.source) ordered)
