-- ===== src/ModuleApi/Graph/Collected.antt =====
-- module/api.go: what the first loop of Sort builds.
use mathlib.Core.List.{append-nil, append_assoc, map-append}
use mathlib.Core.Option.{some-injective}
use lunaship.Base.{
  ℕ, suc, ◌≤◌, String, false, Option, none, some, List, [], ◌∷◌, ◌++◌, ◌≡◌, refl, inl, inr, ok,
  >>=-eq-ok, ok-injective, err-ne-ok, if◌then◌else◌, ◌==◌, eq_iff, arith, In, All, All-append,
  Bool-cases, Option-cases, sym, subst, ap, map,
}
use lunaship.Base.Text.{trim_space, is_empty}
use lunaship.ModuleApi.Names.{Module, normalize_dependencies}
use lunaship.ModuleApi.Graph.{Node, new_node, find_node, admit, collect}
use lunaship.ModuleApi.Graph.Counting.{occ, occ-append, node_names}

module _ {M : Type 0} where
  pub find_node-none :
      (nodes : List (Node M)) (name : String)
      → find_node nodes name ≡ none
      → occ name (node_names nodes) ≡ 0
  unfolding find_node occ
  find_node-none [] name e = refl
  find_node-none (n ∷ nodes) name e = ground (arith, find_node-none nodes name)

  pub find_node-some :
      (nodes : List (Node M)) (name : String) {n : Node M}
      → find_node nodes name ≡ some n
      → In n nodes × (n.name ≡ name)
  unfolding find_node
  find_node-some [] name e = cc
  find_node-some (m ∷ nodes) name {n} e = elim (Bool-cases (m.name == name)) [
    | inl same ↦
        let here = some-injective m n (rw same at e) in
        (inl (sym here), rw (← here) ((eq_iff m.name name).0 same))
    | inr other ↦
        let (member, named) = find_node-some nodes name (rw other at e) in (inr member, named)
  ]

  pub occ_of_In :
      (nodes : List (Node M)) (n : Node M) → In n nodes → 1 ≤ occ n.name (node_names nodes)
  unfolding occ
  occ_of_In [] n m = elim m [ ]
  occ_of_In (x ∷ nodes) n (inl e) =
      ground (arith, ap (λ (y : Node M). y.name) e, eq_iff x.name n.name)
  occ_of_In (x ∷ nodes) n (inr m) = omega (arith, occ_of_In nodes n m)

  pub find_node-In :
      (nodes : List (Node M)) (n : Node M)
      → In n nodes
      → (m : Node M) × (find_node nodes n.name ≡ some m)
  find_node-In nodes n member = elim (Option-cases (find_node nodes n.name)) [
    | inl missing ↦
        absurd (omega (arith, find_node-none nodes n.name missing, occ_of_In nodes n member))
    | inr found ↦ found
  ]

-- The modules that take part: those that are not nil and are enabled.
unfoldable pub enabled_modules : {S E : Type 0} → List (Option (Module S E)) → List (Module S E)
enabled_modules [] = []
enabled_modules (none ∷ rest) = enabled_modules rest
enabled_modules (some m ∷ rest) =
    let more = enabled_modules rest in if m.enabled then m ∷ more else more

module _ {S E : Type 0} where
  -- The node shows its module under the trimmed name, with the normalised dependencies.
  abbrev pub Shows : Node (Module S E) → Type 0
  Shows n =
      (n.name ≡ trim_space n.source.name)
      × (n.depends_on ≡ normalize_dependencies n.source.dependencies)
      × (is_empty n.name ≡ false)

  abbrev pub Unique : List (Node (Module S E)) → Type 0
  Unique nodes = (x : String) → occ x (node_names nodes) ≤ 1

  pub record Collected (sources : List (Module S E)) (nodes : List (Node (Module S E)))
      : Type 0 where
    pub same : map (λ n. n.source) nodes ≡ sources
    pub shown : All Shows nodes
    pub unique : Unique nodes

  snoc-Collected :
      (index : ℕ) (m : Module S E) (sources : List (Module S E)) (nodes : List (Node (Module S E)))
      → Collected sources nodes
      → is_empty (trim_space m.name) ≡ false
      → find_node nodes (trim_space m.name) ≡ none
      → Collected (sources ++ m ∷ []) (nodes ++ new_node index m ∷ [])
  unfolding occ
  snoc-Collected index m sources nodes c named fresh = record {
    same = rw (map-append, c.same);
    shown = All-append Shows _ _ c.shown ((refl, refl, named), tt);
    unique = λ x. rw map-append (
        ground (
          arith,
          c.unique x,
          find_node-none nodes (trim_space m.name) fresh,
          occ-append x (node_names nodes) (trim_space m.name ∷ []),
          eq_iff (trim_space m.name) x,
        ));
  }

  admit-Collected :
      (index : ℕ) (candidate : Option (Module S E)) (sources : List (Module S E))
      (nodes : List (Node (Module S E))) {after : List (Node (Module S E))}
      → Collected sources nodes
      → admit index candidate nodes ≡ ok after
      → Collected (sources ++ enabled_modules (candidate ∷ [])) after
  unfolding admit enabled_modules
  admit-Collected index none sources nodes c e =
      rw append-nil (subst (Collected sources) (ok-injective e) c)
  admit-Collected index (some m) sources nodes c e = elim (Bool-cases m.enabled) [
    | inl on ↦ elim (Bool-cases (is_empty (trim_space m.name))) [
      | inl blank ↦ absurd (err-ne-ok (rw (on, blank, admit) at e))
      | inr named ↦ elim (Option-cases (find_node nodes (trim_space m.name))) [
        | inl fresh ↦ simp on (
            subst (Collected (sources ++ m ∷ [])) (ok-injective (rw (on, named, fresh, admit) at e))
              (snoc-Collected index m sources nodes c named fresh))
        | inr (old, found) ↦ absurd (err-ne-ok (rw (on, named, found, admit) at e))
      ]
    ]
    | inr off ↦
        simp (off, append-nil) (subst (Collected sources) (ok-injective (rw (off, admit) at e)) c)
  ]

  enabled_modules-cons :
      (candidate : Option (Module S E)) (rest : List (Option (Module S E)))
      → enabled_modules (candidate ∷ rest)
        ≡ enabled_modules (candidate ∷ []) ++ enabled_modules rest
  unfolding enabled_modules
  enabled_modules-cons none rest = refl
  enabled_modules-cons (some m) rest = ground arith

  collect-Collected_from :
      (index : ℕ) (rest : List (Option (Module S E))) (sources : List (Module S E))
      (nodes : List (Node (Module S E))) {after : List (Node (Module S E))}
      → Collected sources nodes
      → collect index rest nodes ≡ ok after
      → Collected (sources ++ enabled_modules rest) after
  unfolding collect enabled_modules
  collect-Collected_from index [] sources nodes c e =
      rw append-nil (subst (Collected sources) (ok-injective e) c)
  collect-Collected_from index (candidate ∷ rest) sources nodes c e =
      let (next, first, later) =
        >>=-eq-ok (admit index candidate nodes) (collect (suc index) rest) e in
      rw (enabled_modules-cons candidate rest, ← append_assoc)
        (collect-Collected_from (suc index) rest _ next
          (admit-Collected index candidate sources nodes c first) later)

  -- The nodes show the enabled modules, in their order, under distinct names that are not empty.
  pub collect-Collected :
      (modules : List (Option (Module S E))) {nodes : List (Node (Module S E))}
      → collect 0 modules [] ≡ ok nodes
      → Collected (enabled_modules modules) nodes
  unfolding occ
  collect-Collected modules e =
      collect-Collected_from 0 modules [] []
        (record { same = refl; shown = tt; unique = λ x. omega arith }) e
