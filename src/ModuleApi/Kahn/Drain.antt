-- ===== src/ModuleApi/Kahn/Drain.antt =====
-- The measure of the loop of Sort, the order that it builds, and what no pending edge means.
use mathlib.Core.List.{append_assoc, append-nil}
use lunaship.Base.{
  ℕ, ◌+◌, ◌≤◌, ◌<◌, String, List, [], ◌∷◌, ◌++◌, ◌≡◌, refl, inl, inr, ◌==◌, eq_iff, arith, In, All,
  All-append, All-map, Bool-cases, sym, subst, ap, length,
}
use lunaship.ModuleApi.Graph.{Node}
use lunaship.ModuleApi.Graph.Counting.{
  occ, occ-append, targets, targets-append, pend, pend-append, edges_from, edges_of, node_names,
}
use lunaship.ModuleApi.Kahn.Invariant.{settled}

pub In-of_occ : (x : String) (xs : List String) → 1 ≤ occ x xs → In x xs
unfolding occ
In-of_occ x [] h = absurd (omega arith)
In-of_occ x (y ∷ xs) h = elim (Bool-cases (y == x)) [
  | inl same ↦ inl (sym ((eq_iff y x).0 same))
  | inr other ↦ inr (In-of_occ x xs (ground arith))
]

pend-edges_from :
    (done : List String) (x : String) (ds : List String)
    → pend (edges_from x ds) done x ≡ 0
    → All (λ d. In d done) ds
unfolding pend edges_from
pend-edges_from done x [] h = tt
pend-edges_from done x (d ∷ ds) h =
    (In-of_occ d done (ground (arith, eq_iff x x)), pend-edges_from done x ds (omega arith))

ends-occ :
    (c : String) (x : String) (ds : List String) → All (λ y. y ≡ x) (targets (edges_from x ds) c)
unfolding targets edges_from
ends-occ c x [] = tt
ends-occ c x (d ∷ ds) = elim (Bool-cases (d == c)) [
  | inl same ↦ simp same (refl, ends-occ c x ds)
  | inr other ↦ simp other (ends-occ c x ds)
]

module _ {M : Type 0} where
  -- Nodes that are still to be finished.
  unfoldable pub left : List String → List (Node M) → ℕ
  left done [] = 0
  left done (n ∷ ns) = settled (occ n.name done) + left done ns

  left-le :
      (c : String) (done : List String) (ns : List (Node M))
      → left (done ++ c ∷ []) ns ≤ left done ns
  unfolding left
  left-le c done [] = omega arith
  left-le c done (n ∷ ns) = ground (arith, left-le c done ns, occ-append n.name done (c ∷ []))

  pub left-lt :
      (c : Node M) (done : List String) (ns : List (Node M))
      → In c ns
      → occ c.name done ≡ 0
      → left (done ++ c.name ∷ []) ns < left done ns
  unfolding left occ
  left-lt c done [] m fresh = elim m [ ]
  left-lt c done (n ∷ ns) (inl e) fresh = ground (
    arith,
    left-le c.name done ns,
    occ-append n.name done (c.name ∷ []),
    ap (λ (y : Node M). y.name) e,
    eq_iff c.name n.name,
  )
  left-lt c done (n ∷ ns) (inr m) fresh =
      ground (arith, left-lt c done ns m fresh, occ-append n.name done (c.name ∷ []))

  pub left-le-length : (done : List String) (ns : List (Node M)) → left done ns ≤ length ns
  unfolding left
  left-le-length done [] = omega arith
  left-le-length done (n ∷ ns) = ground (arith, left-le-length done ns)

  -- Each node stands behind the nodes that it depends on; `seen` are the names before the list.
  abbrev pub IsOrdered : List String → List (Node M) → Type 0
  IsOrdered seen [] = Unit
  IsOrdered seen (n ∷ ns) = All (λ d. In d seen) n.depends_on × IsOrdered (seen ++ n.name ∷ []) ns

  pub snoc-IsOrdered :
      (seen : List String) (ns : List (Node M)) (c : Node M)
      → IsOrdered seen ns
      → All (λ d. In d (seen ++ node_names ns)) c.depends_on
      → IsOrdered seen (ns ++ c ∷ [])
  snoc-IsOrdered seen [] c h deps = (rw append-nil at deps, tt)
  snoc-IsOrdered seen (n ∷ ns) c h deps = (
    h.0,
    snoc-IsOrdered (seen ++ n.name ∷ []) ns c h.1 (
        subst (λ l. All (λ d. In d l) c.depends_on)
          (sym (append_assoc seen (n.name ∷ []) (node_names ns))) deps),
  )

  -- A node with nothing pending has all of its dependencies finished.
  pub settled-deps :
      (done : List String) (c : Node M) (ns : List (Node M))
      → In c ns
      → pend (edges_of ns) done c.name ≡ 0
      → All (λ d. In d done) c.depends_on
  unfolding edges_of
  settled-deps done c [] m h = elim m [ ]
  settled-deps done c (n ∷ ns) (inl e) h = pend-edges_from done c.name c.depends_on (
      subst (λ (y : Node M). pend (edges_from y.name y.depends_on) done c.name ≡ 0) (sym e)
        (omega (arith, pend-append done c.name (edges_from n.name n.depends_on) (edges_of ns))))
  settled-deps done c (n ∷ ns) (inr m) h =
      settled-deps done c ns m
        (omega (arith, pend-append done c.name (edges_from n.name n.depends_on) (edges_of ns)))

  -- The dependents of a node are names of nodes.
  pub ends-In :
      (c : String) (ns : List (Node M)) → All (λ y. In y (node_names ns)) (targets (edges_of ns) c)
  unfolding targets edges_of
  ends-In c [] = tt
  ends-In c (n ∷ ns) = rw targets-append (
      All-append _ (targets (edges_from n.name n.depends_on) c) _
        (All-map _ _ _ (λ y e. inl e) (ends-occ c n.name n.depends_on))
        (All-map _ _ _ (λ y m. inr m) (ends-In c ns)))
