-- ===== src/ModuleApi/Order.antt =====
-- module/api.go: Sort as a whole, from its arguments to its answer.
use mathlib.Core.List.{Perm}
use mathlib.Core.List.Perm
use mathlib.Core.Path.{subst₂}
use lunaship.Base.{
  ℕ, suc, ◌≤◌, ◌<◌, String, true, Option, List, [], ◌∷◌, ◌++◌, ◌≡◌, ◌≢◌, ◌⊎◌, inl, inr, ok, err,
  >>=-eq-ok, >>=-eq-err, ok-injective, err-ne-ok, if◌then◌else◌, arith, In, All, All-In, All-both,
  All-append, All-map, Bool-cases, sym, subst, ◌∙◌, map, eqb, length,
}
use lunaship.Base.Text.{trim_space}
use lunaship.ModuleApi.Names.{Module, normalize_dependencies}
use lunaship.ModuleApi.Graph.{SortError, cycle, no_fuel, Node, Edges, no_edges, collect, link_all}
use lunaship.ModuleApi.Graph.Counting.{occ, Edge, edges_from, edges_of, node_names}
use lunaship.ModuleApi.Graph.Links.{Linked, Known, link_all-edges}
use lunaship.ModuleApi.Graph.Collected.{enabled_modules, Shows, Collected, collect-Collected}
use lunaship.ModuleApi.Kahn.{Queue, initial_queue, conclude, blocked_names, sort_nodes, sort}
use lunaship.ModuleApi.Kahn.Drain.{IsOrdered, left-le-length}
use lunaship.ModuleApi.Kahn.Loop.{Loop, initial-Loop, drain-Loop}
use lunaship.ModuleApi.Kahn.Outcome.{ordered-length, ordered_unique, Perm_of_members}
use lunaship.ModuleApi.Early.{is_early, collect_early, link_all_early}

module _ {M : Type 0} (nodes : List (Node M)) (g : Edges) (linked : Linked (edges_of nodes) g)
    (unique : (x : String) → occ x (node_names nodes) ≤ 1) where
  -- The loop's last state decides what Sort answers.
  sort_nodes-Loop :
      (q : Queue M) × (ordered : List (Node M)) × (sort_nodes nodes g ≡ (
        if eqb (length ordered) (length nodes)
        then ok ordered
        else err (cycle (blocked_names nodes q))))
      × (q.ready ≡ [])
      × Loop nodes g linked unique q ordered
  unfolding sort_nodes conclude
  sort_nodes-Loop =
      let (q, ordered, ended, idle, loop) =
        drain-Loop nodes g linked unique (suc (length nodes)) (initial_queue nodes g) []
          (omega (arith, left-le-length [] nodes)) (initial-Loop nodes g linked unique) in
      (q, ordered, rw ended, idle, loop)

  sort_nodes_sound :
      (ordered : List (Node M))
      → sort_nodes nodes g ≡ ok ordered
      → Perm ordered nodes × IsOrdered [] ordered × All (λ n. In n nodes) ordered
  sort_nodes_sound ordered e =
      let (q, found, answer, idle, loop) = sort_nodes-Loop in
      elim (Bool-cases (eqb (length found) (length nodes))) [
        | inl full ↦
            subst (λ l. Perm l nodes × IsOrdered [] l × All (λ n. In n nodes) l)
              (ok-injective (sym (rw full at answer) ∙ e))
              (
                Perm_of_members found nodes (ordered_unique nodes g linked unique q found idle loop)
                    loop.members (ground arith),
                loop.sorted,
                loop.members,
              )
        | inr short ↦ absurd (err-ne-ok (sym (rw short at answer) ∙ e))
      ]

  sort_nodes_ends : sort_nodes nodes g ≢ err no_fuel
  sort_nodes_ends e = let (q, found, answer, idle, loop) = sort_nodes-Loop in ground arith

  sort_nodes_complete :
      (rank : String → ℕ)
      → All (λ e. Known nodes e × (rank e.0 < rank e.1)) (edges_of nodes)
      → (ordered : List (Node M)) × (sort_nodes nodes g ≡ ok ordered)
  sort_nodes_complete rank ranked =
      let (q, found, answer, idle, loop) = sort_nodes-Loop in
      (found, ground (arith, ordered-length nodes g linked unique q found idle loop rank ranked))

ranked_edges_from :
    (rank : String → ℕ) (x : String) (ds : List String)
    → All (λ d. rank d < rank x) ds
    → All (λ (e : Edge). rank e.0 < rank e.1) (edges_from x ds)
unfolding edges_from
ranked_edges_from rank x [] h = tt
ranked_edges_from rank x (d ∷ ds) h = (h.0, ranked_edges_from rank x ds h.1)

ranked_edges :
    {M : Type 0} (rank : String → ℕ) (ns : List (Node M))
    → All (λ n. All (λ d. rank d < rank n.name) n.depends_on) ns
    → All (λ (e : Edge). rank e.0 < rank e.1) (edges_of ns)
unfolding edges_of
ranked_edges rank [] h = tt
ranked_edges rank (n ∷ ns) h =
    All-append _ (edges_from n.name n.depends_on) _ (ranked_edges_from rank n.name n.depends_on h.0)
      (ranked_edges rank ns h.1)

module _ {S E : Type 0} where
  -- Each module stands behind the modules that it depends on; `seen` are the names before the list.
  abbrev pub IsInitOrder : List String → List (Module S E) → Type 0
  IsInitOrder seen [] = Unit
  IsInitOrder seen (m ∷ ms) =
      All (λ d. In d seen) (normalize_dependencies m.dependencies)
      × IsInitOrder (seen ++ trim_space m.name ∷ []) ms

  -- `rank` puts each dependency below its module, so the dependencies have no cycle.
  abbrev pub IsRanked : (String → ℕ) → List (Module S E) → Type 0
  IsRanked rank ms =
      All
        (λ m. All (λ d. rank d < rank (trim_space m.name)) (normalize_dependencies m.dependencies))
        ms

  IsOrdered→IsInitOrder :
      (seen : List String) (ns : List (Node (Module S E)))
      → All Shows ns
      → IsOrdered seen ns
      → IsInitOrder seen (map (λ n. n.source) ns)
  IsOrdered→IsInitOrder seen [] shown h = tt
  IsOrdered→IsInitOrder seen (n ∷ ns) shown h = (
    subst (All (λ d. In d seen)) shown.0.1 h.0,
    IsOrdered→IsInitOrder (seen ++ trim_space n.source.name ∷ []) ns shown.1
        (subst (λ x. IsOrdered (seen ++ x ∷ []) ns) shown.0.0 h.1),
  )

  ranked_nodes :
      (rank : String → ℕ) (ns : List (Node (Module S E)))
      → All Shows ns
      → IsRanked rank (map (λ n. n.source) ns)
      → All (λ n. All (λ d. rank d < rank n.name) n.depends_on) ns
  ranked_nodes rank [] shown h = tt
  ranked_nodes rank (n ∷ ns) shown h = (
    subst₂ (λ (x : String) ds. All (λ d. rank d < rank x) ds) (sym shown.0.0) (sym shown.0.1) h.0,
    ranked_nodes rank ns shown.1 h.1,
  )

  module _ (modules : List (Option (Module S E))) where
    -- If Sort succeeds it gives back every enabled module exactly once, each behind all of its
    -- dependencies.
    pub sort_sound :
        (ordered : List (Module S E))
        → sort modules ≡ ok ordered
        → Perm ordered (enabled_modules modules) × IsInitOrder [] ordered
    unfolding sort
    sort_sound ordered e =
        let (nodes, collected, e₁) = >>=-eq-ok (collect 0 modules []) _ e in
        let (g, linked_ok, e₂) = >>=-eq-ok (link_all nodes nodes no_edges) _ e₁ in
        let (found, sorted, e₃) = >>=-eq-ok (sort_nodes nodes g) _ e₂ in
        let c = collect-Collected modules collected in
        let (linked, known) = link_all-edges nodes linked_ok in
        let (perm, order, members) = sort_nodes_sound nodes g linked c.unique found sorted in
        subst (λ ms. Perm ms (enabled_modules modules) × IsInitOrder [] ms) (ok-injective e₃)
          (
            subst (Perm (map (λ n. n.source) found)) c.same (Perm.map (λ n. n.source) perm),
            IsOrdered→IsInitOrder [] found
                (All-map _ _ found (λ n m. All-In Shows n nodes c.shown m) members) order,
          )

    sort_error :
        (x : SortError)
        → sort modules ≡ err x
        → (is_early x ≡ true)
          ⊎ ((nodes : List (Node (Module S E))) × (g : Edges) × Collected
                (enabled_modules modules)
                nodes
              × Linked (edges_of nodes) g
              × All (Known nodes) (edges_of nodes)
              × (sort_nodes nodes g ≡ err x))
    unfolding sort
    sort_error x e = elim (>>=-eq-err (collect 0 modules []) _ e) [
      | inl early ↦ inl (collect_early 0 modules [] early)
      | inr (nodes, collected, e₁) ↦ elim (>>=-eq-err (link_all nodes nodes no_edges) _ e₁) [
        | inl early ↦ inl (link_all_early nodes nodes no_edges early)
        | inr (g, linked_ok, e₂) ↦ elim (>>=-eq-err (sort_nodes nodes g) _ e₂) [
          | inl late ↦
              let (linked, known) = link_all-edges nodes linked_ok in
              inr (nodes, g, collect-Collected modules collected, linked, known, late)
          | inr (found, sorted, e₃) ↦ absurd (err-ne-ok (sym e₃))
        ]
      ]
    ]

    -- Sort always ends with an answer of the program: its loop never runs out of rounds.
    pub sort_ends : sort modules ≢ err no_fuel
    sort_ends e = elim (sort_error no_fuel e) [
      | inl early ↦ cc
      | inr (nodes, g, c, linked, known, late) ↦ sort_nodes_ends nodes g linked c.unique late
    ]

    -- If a rank puts every dependency of an enabled module below the module, so that there is no
    -- cycle, Sort reports none.
    pub sort-ne-cycle :
        (rank : String → ℕ) (blocked : List String)
        → IsRanked rank (enabled_modules modules)
        → sort modules ≢ err (cycle blocked)
    sort-ne-cycle rank blocked ranked e = elim (sort_error (cycle blocked) e) [
      | inl early ↦ cc
      | inr (nodes, g, c, linked, known, late) ↦
          let ranks =
            ranked_edges rank nodes
              (ranked_nodes rank nodes c.shown (subst (IsRanked rank) (sym c.same) ranked)) in
          let (ordered, sorted) =
            sort_nodes_complete nodes g linked c.unique rank (All-both _ _ _ known ranks) in
          err-ne-ok (sym late ∙ sorted)
    ]
