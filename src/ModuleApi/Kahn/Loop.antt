-- ===== src/ModuleApi/Kahn/Loop.antt =====
-- module/api.go: the loop of Sort as a whole, from its first state to its last.
use mathlib.Core.List.{map-append}
use lunaship.Base.{
  ℕ, zero, suc, ◌≤◌, ◌<◌, String, some, List, [], ◌∷◌, ◌++◌, ◌≡◌, inl, inr, if◌then◌else◌, eq_iff,
  arith, In, All, All-append, All-map, All-keep, In-self, List-cases, Bool-cases, sym, subst, eqb,
  keep,
}
use lunaship.ModuleApi.Graph.{Node, Edges}
use lunaship.ModuleApi.Graph.Counting.{occ, edges_of, node_names}
use lunaship.ModuleApi.Graph.Links.{Linked}
use lunaship.ModuleApi.Kahn.{Queue, release, drain, initial_queue}
use lunaship.ModuleApi.Kahn.Invariant.{
  Inv, release-Inv, pop-Inv, head-settled, head-counts, head-member, occ-sort, All-sort,
}
use lunaship.ModuleApi.Kahn.Drain.{left, left-lt, IsOrdered, snoc-IsOrdered, settled-deps, ends-In}

occ-keep :
    {M : Type 0} (x : String) (f : String → ℕ) (ns : List (Node M))
    → occ x (node_names (keep (λ n. eqb (f n.name) 0) ns))
      ≡ (if eqb (f x) 0 then occ x (node_names ns) else 0)
unfolding keep occ
occ-keep x f [] = ground arith
occ-keep x f (n ∷ ns) = elim (Bool-cases (eqb (f n.name) 0)) [
  | inl z ↦ simp z (ground (arith, occ-keep x f ns, eq_iff n.name x))
  | inr p ↦ simp p (ground (arith, occ-keep x f ns, eq_iff n.name x))
]

occ_of_In_names : (x : String) (xs : List String) → In x xs → 1 ≤ occ x xs
unfolding occ
occ_of_In_names x [] m = elim m [ ]
occ_of_In_names x (y ∷ xs) (inl e) = ground (arith, eq_iff y x)
occ_of_In_names x (y ∷ xs) (inr m) = omega (arith, occ_of_In_names x xs m)

module _ {M : Type 0} (nodes : List (Node M)) (g : Edges) (linked : Linked (edges_of nodes) g)
    (unique : (x : String) → occ x (node_names nodes) ≤ 1) where
  pub record Loop (q : Queue M) (ordered : List (Node M)) : Type 0 where
    pub inv : Inv (edges_of nodes) nodes (node_names ordered) [] q
    pub sorted : IsOrdered [] ordered
    pub members : All (λ n. In n nodes) ordered

  pub initial-Loop : Loop (initial_queue nodes g) []
  unfolding initial_queue occ
  initial-Loop = record {
    inv = record {
      degree = λ x. omega (arith, linked.degree x);
      placed = λ x node. ground (
        arith,
        unique x,
        occ-keep x g.in_degree nodes,
        occ-sort x (keep (λ n. eqb (g.in_degree n.name) 0) nodes),
      );
      members = All-sort _ _ (All-keep _ _ nodes (In-self nodes));
    };
    sorted = tt;
    members = tt;
  }

  module _ (q : Queue M) (ordered : List (Node M)) (c : Node M) (ready : List (Node M))
      (split : q.ready ≡ c ∷ ready) (loop : Loop q ordered) where
    abbrev next : Queue M
    next = release nodes (g.dependents c.name) (record q { ready = ready })

    member : In c nodes
    member = head-member (edges_of nodes) nodes (node_names ordered) q c ready split loop.inv

    ends : All (λ y. 1 ≤ occ y (node_names nodes)) (g.dependents c.name)
    ends =
        rw (linked.target c.name)
          (All-map _ _ _ (λ y m. occ_of_In_names y (node_names nodes) m) (ends-In c.name nodes))

    next-Loop : Loop next (ordered ++ c ∷ [])
    next-Loop = record {
      inv = rw map-append (
          release-Inv (edges_of nodes) nodes (node_names ordered ++ c.name ∷ [])
            (g.dependents c.name) (record q { ready = ready }) ends
            (subst
              (λ l.
                Inv (edges_of nodes) nodes (node_names ordered ++ c.name ∷ []) l
                  (record q { ready = ready }))
              (sym (linked.target c.name))
              (pop-Inv (edges_of nodes) nodes (node_names ordered) q c ready split loop.inv)));
      sorted = snoc-IsOrdered [] ordered c loop.sorted (
          settled-deps (node_names ordered) c nodes member
            (head-settled (edges_of nodes) nodes (node_names ordered) q c ready split loop.inv));
      members = All-append _ ordered _ loop.members (member, tt);
    }

    next-left : left (node_names (ordered ++ c ∷ [])) nodes < left (node_names ordered) nodes
    next-left = rw map-append (
        left-lt c (node_names ordered) nodes member
          (head-counts (edges_of nodes) nodes (node_names ordered) q c ready split loop.inv).0)

  pub drain-Loop :
      (fuel : ℕ) (q : Queue M) (ordered : List (Node M))
      → left (node_names ordered) nodes < fuel
      → Loop q ordered
      → (q' : Queue M) × (ordered' : List (Node M)) × (drain nodes g.dependents fuel q ordered
          ≡ some (q', ordered'))
        × (q'.ready ≡ [])
        × Loop q' ordered'
  unfolding drain
  drain-Loop zero q ordered enough loop = absurd (omega arith)
  drain-Loop (suc fuel) q ordered enough loop = elim (List-cases q.ready) [
    | inl idle ↦ (q, ordered, simp idle, idle, loop)
    | inr (c, ready, split) ↦ simp split (
        drain-Loop fuel (next q ordered c ready split loop) (ordered ++ c ∷ [])
          (omega (arith, next-left q ordered c ready split loop))
          (next-Loop q ordered c ready split loop))
  ]
