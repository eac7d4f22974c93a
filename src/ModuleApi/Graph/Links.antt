-- ===== src/ModuleApi/Graph/Links.antt =====
-- module/api.go: what the second loop of Sort builds.
use mathlib.Core.List.{append-nil, append_assoc}
use lunaship.Base.{
  String, some, List, [], ◌∷◌, ◌++◌, ◌≡◌, refl, ◌≢◌, inl, inr, ok, ◌==◌, eq_iff, arith, All,
  All-append, >>=-eq-ok, ok-injective, err-ne-ok, Bool-cases, Option-cases, sym, subst,
}
use lunaship.ModuleApi.Graph.{
  Node, Edges, no_edges, add_edge, find_node, link_one, link_deps, link_all,
}
use lunaship.ModuleApi.Graph.Counting.{
  occ, Edge, targets, pend, targets-append, pend-append, edges_from, edges_of,
}

-- The two maps say what the list of edges says.
pub record Linked (es : List Edge) (g : Edges) : Type 0 where
  pub degree : (x : String) → g.in_degree x ≡ pend es [] x
  pub target : (c : String) → g.dependents c ≡ targets es c

add_edge-Linked :
    (es : List Edge) (y d : String) (g : Edges)
    → Linked es g
    → Linked (es ++ (d, y) ∷ []) (add_edge y d g)
unfolding add_edge pend targets occ
add_edge-Linked es y d g l = record {
  degree =
      λ x. ground (arith, l.degree x, l.degree y, eq_iff y x, pend-append [] x es ((d, y) ∷ []));
  target = λ c. ground (
    arith,
    l.target c,
    l.target d,
    eq_iff d c,
    append-nil (targets es c),
    targets-append c es ((d, y) ∷ []),
  );
}

no_edges-Linked : Linked [] no_edges
unfolding pend targets
no_edges-Linked = record { degree = λ x. refl; target = λ c. refl }

module _ {M : Type 0} (nodes : List (Node M)) where
  -- The edge starts at a node, and ends at another one.
  abbrev pub Known : Edge → Type 0
  Known (d, y) = ((n : Node M) × (find_node nodes d ≡ some n)) × (d ≢ y)

  link_one-eq-ok :
      (current : Node M) (d : String) (g : Edges) {h : Edges}
      → link_one nodes current d g ≡ ok h
      → (h ≡ add_edge current.name d g) × Known (d, current.name)
  unfolding link_one
  link_one-eq-ok current d g e = elim (Bool-cases (d == current.name)) [
    | inl same ↦ absurd (err-ne-ok (rw (same, link_one) at e))
    | inr differ ↦ elim (Option-cases (find_node nodes d)) [
      | inl missing ↦ absurd (err-ne-ok (rw (differ, missing, link_one) at e))
      | inr (n, found) ↦ (
        sym (ok-injective (rw (differ, found, link_one) at e)),
        ((n, found), λ same. cc (differ, (eq_iff d current.name).1 same)),
      )
    ]
  ]

  link_deps-Linked :
      (current : Node M) (ds : List String) (es : List Edge) (g : Edges) {h : Edges}
      → Linked es g
      → link_deps nodes current ds g ≡ ok h
      → Linked (es ++ edges_from current.name ds) h × All Known (edges_from current.name ds)
  unfolding link_deps edges_from
  link_deps-Linked current [] es g l e = (rw append-nil (subst (Linked es) (ok-injective e) l), tt)
  link_deps-Linked current (d ∷ ds) es g l e =
      let (g', first, rest) =
        >>=-eq-ok (link_one nodes current d g) (link_deps nodes current ds) e in
      let (same, known) = link_one-eq-ok current d g first in
      let l' =
        subst (Linked (es ++ (d, current.name) ∷ [])) (sym same)
          (add_edge-Linked es current.name d g l) in
      let (linked, all) = link_deps-Linked current ds (es ++ (d, current.name) ∷ []) g' l' rest in
      (rw append_assoc at linked, (known, all))

  link_all-Linked :
      (ns : List (Node M)) (es : List Edge) (g : Edges) {h : Edges}
      → Linked es g
      → link_all nodes ns g ≡ ok h
      → Linked (es ++ edges_of ns) h × All Known (edges_of ns)
  unfolding link_all edges_of
  link_all-Linked [] es g l e = (rw append-nil (subst (Linked es) (ok-injective e) l), tt)
  link_all-Linked (n ∷ ns) es g l e =
      let (g', first, rest) = >>=-eq-ok (link_deps nodes n n.depends_on g) (link_all nodes ns) e in
      let (l', known) = link_deps-Linked n n.depends_on es g l first in
      let (linked, all) = link_all-Linked ns (es ++ edges_from n.name n.depends_on) g' l' rest in
      (rw append_assoc at linked, All-append Known _ _ known all)

  -- The maps that the second loop leaves agree with the edges of the graph.
  pub link_all-edges :
      {h : Edges}
      → link_all nodes nodes no_edges ≡ ok h
      → Linked (edges_of nodes) h × All Known (edges_of nodes)
  link_all-edges e = link_all-Linked nodes [] no_edges no_edges-Linked e
