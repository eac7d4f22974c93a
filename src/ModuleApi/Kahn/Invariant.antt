-- ===== src/ModuleApi/Kahn/Invariant.antt =====
-- The invariant of the loop of Sort: in-degrees count the unfinished dependencies, and a node is
-- finished or ready exactly when its in-degree is 0.
use mathlib.Core.List.{map-append}
use lunaship.Base.{
  ℕ, ◌+◌, ◌-◌, ◌≤◌, String, List, [], ◌∷◌, ◌++◌, ◌≡◌, refl, inl, inr, if◌then◌else◌, ◌==◌, eq_iff,
  arith, In, All, All-append, Bool-cases, Option-cases, sym, subst, ap, eqb, ltb,
}
use lunaship.ModuleApi.Graph.{Node, find_node}
use lunaship.ModuleApi.Graph.Counting.{
  hit, occ, occ-append, Edge, targets, pend, pend-finish, node_names,
}
use lunaship.ModuleApi.Graph.Collected.{find_node-none, find_node-some, occ_of_In}
use lunaship.ModuleApi.Kahn.{insert_by_index, sort_by_index, Queue, lower, release_one, release}

module _ {M : Type 0} where
  -- The ready list as its names.
  occ-insert :
      (x : String) (n : Node M) (ns : List (Node M))
      → occ x (node_names (insert_by_index n ns)) ≡ hit n.name x + occ x (node_names ns)
  unfolding insert_by_index occ
  occ-insert x n [] = refl
  occ-insert x n (m ∷ ns) = ground (arith, occ-insert x n ns)

  pub occ-sort :
      (x : String) (ns : List (Node M))
      → occ x (node_names (sort_by_index ns)) ≡ occ x (node_names ns)
  unfolding sort_by_index occ
  occ-sort x [] = refl
  occ-sort x (n ∷ ns) = omega (arith, occ-sort x ns, occ-insert x n (sort_by_index ns))

  All-insert :
      (P : Node M → Type 0) (n : Node M) (ns : List (Node M))
      → P n
      → All P ns
      → All P (insert_by_index n ns)
  unfolding insert_by_index
  All-insert P n [] p h = (p, tt)
  All-insert P n (m ∷ ns) p h = elim (Bool-cases (ltb m.index n.index)) [
    | inl after ↦ simp after (h.0, All-insert P n ns p h.1)
    | inr before ↦ simp before (p, h)
  ]

  pub All-sort : (P : Node M → Type 0) (ns : List (Node M)) → All P ns → All P (sort_by_index ns)
  unfolding sort_by_index
  All-sort P [] h = tt
  All-sort P (n ∷ ns) h = All-insert P n (sort_by_index ns) h.0 (All-sort P ns h.1)

-- 1 for an in-degree of 0, else 0.
abbrev pub settled : ℕ → ℕ
settled degree = if eqb degree 0 then 1 else 0

module _ {M : Type 0} (es : List Edge) (nodes : List (Node M)) where
  -- `rest` holds the dependents of the last finished node whose in-degree is still to be lowered.
  pub record Inv (done rest : List String) (q : Queue M) : Type 0 where
    pub degree : (x : String) → q.in_degree x ≡ pend es done x + occ x rest
    pub placed :
        (x : String)
        → 1 ≤ occ x (node_names nodes)
        → occ x done + occ x (node_names q.ready) ≡ settled (q.in_degree x)
    pub members : All (λ n. In n nodes) q.ready

  module _ (done rest : List String) (m : Node M) (q : Queue M) (member : In m nodes)
      (inv : Inv done (m.name ∷ rest) q) where
    lower-degree : (x : String) → (lower m q).in_degree x ≡ pend es done x + occ x rest
    unfolding lower occ
    lower-degree x = ground (arith, inv.degree x, inv.degree m.name, eq_iff m.name x)

    occ-ready :
        (x : String)
        → occ x (node_names (lower m q).ready)
          ≡ occ x (node_names q.ready)
            + (if eqb (q.in_degree m.name - 1) 0 then hit m.name x else 0)
    unfolding lower occ
    occ-ready x = elim (Bool-cases (eqb (q.in_degree m.name - 1) 0)) [
      | inl zeroed ↦ simp zeroed (
          omega (
            arith,
            occ-sort x (q.ready ++ m ∷ []),
            ap (occ x) (map-append (λ (n : Node M). n.name) q.ready (m ∷ [])),
            occ-append x (node_names q.ready) (m.name ∷ []),
          ))
      | inr left ↦ simp left (omega arith)
    ]

    lower-in_degree :
        (x : String)
        → (lower m q).in_degree x ≡ (if m.name == x then q.in_degree m.name - 1 else q.in_degree x)
    unfolding lower
    lower-in_degree x = ground arith

    lower-placed :
        (x : String)
        → 1 ≤ occ x (node_names nodes)
        → occ x done + occ x (node_names (lower m q).ready) ≡ settled ((lower m q).in_degree x)
    unfolding occ
    lower-placed x node = ground (
      arith,
      occ-ready x,
      lower-in_degree x,
      inv.placed x,
      inv.degree m.name,
      eq_iff m.name x,
      occ_of_In nodes m member,
    )

    lower-members : All (λ n. In n nodes) (lower m q).ready
    unfolding lower
    lower-members = elim (Bool-cases (eqb (q.in_degree m.name - 1) 0)) [
      | inl zeroed ↦
          simp zeroed
            (All-sort _ _ (All-append (λ n. In n nodes) q.ready _ inv.members (member, tt)))
      | inr left ↦ simp left inv.members
    ]

    lower-Inv : Inv done rest (lower m q)
    lower-Inv = record { degree = lower-degree; placed = lower-placed; members = lower-members }

  release_one-Inv :
      (done rest : List String) (y : String) (q : Queue M)
      → 1 ≤ occ y (node_names nodes)
      → Inv done (y ∷ rest) q
      → Inv done rest (release_one nodes y q)
  unfolding release_one
  release_one-Inv done rest y q node inv = elim (Option-cases (find_node nodes y)) [
    | inl missing ↦ absurd (omega (arith, find_node-none nodes y missing))
    | inr (m, found) ↦
        let (member, named) = find_node-some nodes y found in
        rw (found, release_one)
          (lower-Inv done rest m q member (subst (λ z. Inv done (z ∷ rest) q) (sym named) inv))
  ]

  pub release-Inv :
      (done rest : List String) (q : Queue M)
      → All (λ y. 1 ≤ occ y (node_names nodes)) rest
      → Inv done rest q
      → Inv done [] (release nodes rest q)
  unfolding release
  release-Inv done [] q h inv = inv
  release-Inv done (y ∷ rest) q h inv =
      release-Inv done rest (release_one nodes y q) h.1 (release_one-Inv done rest y q h.0 inv)

  -- To take a node out of the ready list finishes it.
  module _ (done : List String) (q : Queue M) (c : Node M) (ready : List (Node M))
      (split : q.ready ≡ c ∷ ready) (inv : Inv done [] q) where
    pub head-member : In c nodes
    head-member = (subst (All (λ n. In n nodes)) split inv.members).0

    pub head-counts : (occ c.name done ≡ 0) × (q.in_degree c.name ≡ 0)
    unfolding occ
    head-counts = ground (
      arith,
      inv.placed c.name,
      occ_of_In nodes c head-member,
      ap (λ ns. occ c.name (node_names ns)) split,
      eq_iff c.name c.name,
    )

    pub head-settled : pend es done c.name ≡ 0
    unfolding occ
    head-settled = omega (arith, inv.degree c.name, head-counts)

    pub pop-Inv : Inv (done ++ c.name ∷ []) (targets es c.name) (record q { ready = ready })
    unfolding occ
    pop-Inv = record {
      degree = λ x. omega (arith, inv.degree x, pend-finish c.name done x es head-counts.0);
      placed = λ x node. omega (
        arith,
        inv.placed x node,
        occ-append x done (c.name ∷ []),
        ap (λ ns. occ x (node_names ns)) split,
      );
      members = (subst (All (λ n. In n nodes)) split inv.members).1;
    }
