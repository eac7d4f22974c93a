-- ===== src/ModuleApi/Kahn/Outcome.antt =====
-- module/api.go: what the loop of Sort has ordered when it ends.
use mathlib.Core.List.{Perm, perm_middle}
use mathlib.Core.List.Perm
use native.Mathlib.Decide.{dec_le}
use lunaship.Base.{
  ℕ, zero, suc, ◌+◌, ◌≤◌, ◌<◌, String, List, [], ◌∷◌, ◌++◌, ◌≡◌, refl, ◌≢◌, inl, inr, ◌==◌, eq_iff,
  arith, In, All, All-In, All-of, In-append_split, In-append_left, In-append_right, In-self,
  Bool-cases, sym, subst, ap, length, length-append,
}
use lunaship.ModuleApi.Graph.{Node, Edges}
use lunaship.ModuleApi.Graph.Counting.{occ, Edge, pend, edges_of, node_names}
use lunaship.ModuleApi.Graph.Links.{Linked, Known}
use lunaship.ModuleApi.Graph.Collected.{occ_of_In, find_node-some}
use lunaship.ModuleApi.Kahn.{Queue}
use lunaship.ModuleApi.Kahn.Invariant.{settled}
use lunaship.ModuleApi.Kahn.Loop.{Loop}

module _ {M : Type 0} where
  named_member :
      (x : String) (ns : List (Node M))
      → 1 ≤ occ x (node_names ns)
      → (n : Node M) × In n ns × (n.name ≡ x)
  unfolding occ
  named_member x [] h = absurd (omega arith)
  named_member x (n ∷ ns) h = elim (Bool-cases (n.name == x)) [
    | inl same ↦ (n, inl refl, (eq_iff n.name x).0 same)
    | inr other ↦
        let (m, member, named) = named_member x ns (ground arith) in (m, inr member, named)
  ]

  -- How many of the names are those of the nodes.
  covered : List (Node M) → List String → ℕ
  covered [] names = 0
  covered (n ∷ ns) names = occ n.name names + covered ns names

  covered-cons :
      (y : String) (names : List String) (ns : List (Node M))
      → covered ns (y ∷ names) ≡ occ y (node_names ns) + covered ns names
  unfolding covered occ
  covered-cons y names [] = refl
  covered-cons y names (n ∷ ns) =
      ground (arith, covered-cons y names ns, eq_iff y n.name, eq_iff n.name y)

  covered-nil : (ns : List (Node M)) → covered ns [] ≡ 0
  unfolding covered occ
  covered-nil [] = refl
  covered-nil (n ∷ ns) = omega (arith, covered-nil ns)

  covered-All :
      (ns : List (Node M)) (names : List String)
      → All (λ n. occ n.name names ≡ 1) ns
      → covered ns names ≡ length ns
  unfolding covered
  covered-All [] names h = refl
  covered-All (n ∷ ns) names h = omega (arith, h.0, covered-All ns names h.1)

  module _ (nodes : List (Node M)) (unique : (x : String) → occ x (node_names nodes) ≤ 1) where
    covered-length :
        (ordered : List (Node M))
        → All (λ n. In n nodes) ordered
        → covered nodes (node_names ordered) ≡ length ordered
    covered-length [] h = covered-nil nodes
    covered-length (c ∷ ordered) h = omega (
      arith,
      covered-cons c.name (node_names ordered) nodes,
      occ_of_In nodes c h.0,
      unique c.name,
      covered-length ordered h.1,
    )

module _ {M : Type 0} (nodes : List (Node M)) (g : Edges) (linked : Linked (edges_of nodes) g)
    (unique : (x : String) → occ x (node_names nodes) ≤ 1) (q : Queue M) (ordered : List (Node M))
    (idle : q.ready ≡ []) (loop : Loop nodes g linked unique q ordered) where
  placed-idle :
      (x : String)
      → 1 ≤ occ x (node_names nodes)
      → occ x (node_names ordered) ≡ settled (q.in_degree x)
  unfolding occ
  placed-idle x node = omega (arith, loop.inv.placed x node, ap (λ ns. occ x (node_names ns)) idle)

  -- No node has been ordered twice.
  pub ordered_unique : (x : String) → occ x (node_names ordered) ≤ 1
  ordered_unique x = elim (dec_le 1 (occ x (node_names ordered))) [
    | yes some_place ↦
        let (n, member, named) = named_member x ordered some_place in
        let node =
          subst (λ z. 1 ≤ occ z (node_names nodes)) named
            (occ_of_In nodes n (All-In _ n ordered loop.members member)) in
        ground (arith, placed-idle x node)
    | no nowhere ↦ omega arith
  ]

  -- With the dependencies below their modules by rank, no in-degree is left above 0.
  module _ (rank : String → ℕ)
      (ranked : All (λ e. Known nodes e × (rank e.0 < rank e.1)) (edges_of nodes)) where
    pend_descend :
        (k : ℕ) (x : String) (es : List Edge)
        → ((d : String) → 1 ≤ occ d (node_names nodes) → rank d < k → q.in_degree d ≡ 0)
        → rank x ≤ k
        → All (λ e. Known nodes e × (rank e.0 < rank e.1)) es
        → pend es (node_names ordered) x ≡ 0
    unfolding pend
    pend_descend k x [] below rx h = refl
    pend_descend k x ((d, y) ∷ es) below rx h =
        let n = h.0.0.0.0 in
        let (member, named) = find_node-some nodes d h.0.0.0.1 in
        let node = subst (λ z. 1 ≤ occ z (node_names nodes)) named (occ_of_In nodes n member) in
        elim (Bool-cases (y == x)) [
          | inl same ↦
              let same' = (eq_iff y x).0 same in
              ground (
                arith,
                pend_descend k x es below rx h.1,
                below d node (omega (arith, ap rank same', h.0.1)),
                placed-idle d node,
              )
          | inr other ↦ ground (arith, pend_descend k x es below rx h.1)
        ]

    settled_below :
        (k : ℕ) (x : String) → 1 ≤ occ x (node_names nodes) → rank x < k → q.in_degree x ≡ 0
    unfolding occ
    settled_below zero x node h = absurd (omega arith)
    settled_below (suc k) x node h =
        let none_left = pend_descend k x (edges_of nodes) (settled_below k) (omega arith) ranked in
        omega (arith, loop.inv.degree x, none_left)

    All-ordered :
        (ns : List (Node M))
        → All (λ n. In n nodes) ns
        → All (λ n. occ n.name (node_names ordered) ≡ 1) ns
    All-ordered [] h = tt
    All-ordered (n ∷ ns) h =
        let node = occ_of_In nodes n h.0 in
        (
          ground (
            arith,
            placed-idle n.name node,
            settled_below (suc (rank n.name)) n.name node (omega arith),
          ),
          All-ordered ns h.1,
        )

    -- Every node has been ordered.
    pub ordered-length : length ordered ≡ length nodes
    ordered-length = omega (
      arith,
      covered-length nodes unique ordered loop.members,
      covered-All nodes (node_names ordered) (All-ordered nodes (In-self nodes)),
    )

In-split :
    {A : Type 0} (x : A) (ys : List A) → In x ys → (l : List A) × (r : List A) × (ys ≡ l ++ x ∷ r)
In-split x [] m = elim m [ ]
In-split x (y ∷ ys) (inl e) = ([], ys, ap (λ z. z ∷ ys) (sym e))
In-split x (y ∷ ys) (inr m) = let (l, r, e) = In-split x ys m in (y ∷ l, r, ap (λ z. y ∷ z) e)

In-other : {A : Type 0} (x c : A) (l r : List A) → In x (l ++ c ∷ r) → x ≢ c → In x (l ++ r)
In-other x c l r m other = elim (In-append_split x l (c ∷ r) m) [
  | inl a ↦ In-append_left x l r a
  | inr (inl e) ↦ absurd (other e)
  | inr (inr b) ↦ In-append_right x l r b
]

head_fresh :
    {M : Type 0} (c : Node M) (xs : List (Node M))
    → ((x : String) → occ x (node_names (c ∷ xs)) ≤ 1)
    → (n : Node M) → In n xs
    → n ≢ c
unfolding occ
head_fresh {M = M} c xs unique n m clash = ground (
  arith,
  unique c.name,
  occ_of_In xs n m,
  ap (λ (k : Node M). occ k.name (node_names xs)) clash,
  eq_iff c.name c.name,
)

tail_unique :
    {M : Type 0} (c : Node M) (xs : List (Node M)) (x : String)
    → occ x (node_names (c ∷ xs)) ≤ 1
    → occ x (node_names xs) ≤ 1
unfolding occ
tail_unique c xs x h = omega (arith, h)

-- Two lists of the same length, the first within the second and without a name twice.
pub Perm_of_members :
    {M : Type 0} (xs ys : List (Node M))
    → ((x : String) → occ x (node_names xs) ≤ 1)
    → All (λ n. In n ys) xs
    → length xs ≡ length ys
    → Perm xs ys
Perm_of_members [] [] unique members same = Perm.rfl
Perm_of_members [] (y ∷ ys) unique members same = absurd (omega arith)
Perm_of_members (c ∷ xs) ys unique members same =
    let (l, r, e) = In-split c ys members.0 in
    let fresh = head_fresh c xs unique in
    let others =
      All-of (λ n. In n (l ++ r)) xs
        (λ n m.
          In-other n c l r (subst (In n) e (All-In (λ k. In k ys) n xs members.1 m))
            (λ clash. fresh n m clash)) in
    rw e (
      Perm.trans
        (Perm.cons c (
          Perm_of_members xs (l ++ r) (λ x. tail_unique c xs x (unique x)) others
            (omega (arith, ap length e, length-append l r, length-append l (c ∷ r)))))
        (Perm.symm (perm_middle l r)))
