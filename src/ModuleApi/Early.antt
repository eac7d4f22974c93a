-- ===== src/ModuleApi/Early.antt =====
-- module/api.go: the errors of the first two loops of Sort.
use lunaship.Base.{
  ℕ, suc, String, Bool, true, false, Option, none, some, List, [], ◌∷◌, ◌≡◌, refl, inl, inr, Result,
  err, >>=-eq-err, err-ne-ok, err-injective, Option-cases, ◌==◌, Bool-cases, sym, ◌∙◌, ap,
}
use lunaship.Base.Text.{trim_space, is_empty}
use lunaship.ModuleApi.Names.{Module}
use lunaship.ModuleApi.Graph.{
  SortError, cycle, no_fuel, Node, find_node, Edges, admit, collect, link_one, link_deps, link_all,
}

-- The errors of the first two loops.
abbrev pub is_early : SortError → Bool
is_early (cycle blocked) = false
is_early no_fuel = false
is_early _ = true

pub early_of_eq :
    {A : Type 0} {x y : SortError}
    → ◌≡◌ {A = Result SortError A} (err y) (err x)
    → is_early y ≡ true
    → is_early x ≡ true
early_of_eq {A} {x} {y} e h = ap is_early (sym (err-injective e)) ∙ h

pub admit_early :
    {S E : Type 0} (index : ℕ) (c : Option (Module S E)) (nodes : List (Node (Module S E)))
    {x : SortError}
    → admit index c nodes ≡ err x
    → is_early x ≡ true
unfolding admit
admit_early index none nodes e = cc
admit_early index (some m) nodes e = elim (Bool-cases m.enabled) [
  | inr off ↦ absurd (err-ne-ok (sym (rw (off, admit) at e)))
  | inl on ↦ elim (Bool-cases (is_empty (trim_space m.name))) [
    | inl blank ↦ early_of_eq (rw (on, blank, admit) at e) refl
    | inr named ↦ elim (Option-cases (find_node nodes (trim_space m.name))) [
      | inl fresh ↦ absurd (err-ne-ok (sym (rw (on, named, fresh, admit) at e)))
      | inr (old, found) ↦ early_of_eq (rw (on, named, found, admit) at e) refl
    ]
  ]
]

pub link_one_early :
    {M : Type 0} (nodes : List (Node M)) (n : Node M) (d : String) (g : Edges) {x : SortError}
    → link_one nodes n d g ≡ err x
    → is_early x ≡ true
unfolding link_one
link_one_early nodes n d g e = elim (Bool-cases (d == n.name)) [
  | inl same ↦ early_of_eq (rw (same, link_one) at e) refl
  | inr other ↦ elim (Option-cases (find_node nodes d)) [
    | inl missing ↦ early_of_eq (rw (other, missing, link_one) at e) refl
    | inr (old, found) ↦ absurd (err-ne-ok (sym (rw (other, found, link_one) at e)))
  ]
]

pub collect_early :
    {S E : Type 0} (index : ℕ) (ms : List (Option (Module S E))) (nodes : List (Node (Module S E)))
    {x : SortError}
    → collect index ms nodes ≡ err x
    → is_early x ≡ true
unfolding collect
collect_early index [] nodes e = cc
collect_early index (c ∷ ms) nodes e = elim (>>=-eq-err (admit index c nodes) _ e) [
  | inl now ↦ admit_early index c nodes now
  | inr (next, done, later) ↦ collect_early (suc index) ms next later
]

pub link_deps_early :
    {M : Type 0} (nodes : List (Node M)) (n : Node M) (ds : List String) (g : Edges) {x : SortError}
    → link_deps nodes n ds g ≡ err x
    → is_early x ≡ true
unfolding link_deps
link_deps_early nodes n [] g e = cc
link_deps_early nodes n (d ∷ ds) g e = elim (>>=-eq-err (link_one nodes n d g) _ e) [
  | inl now ↦ link_one_early nodes n d g now
  | inr (next, done, later) ↦ link_deps_early nodes n ds next later
]

pub link_all_early :
    {M : Type 0} (nodes ns : List (Node M)) (g : Edges) {x : SortError}
    → link_all nodes ns g ≡ err x
    → is_early x ≡ true
unfolding link_all
link_all_early nodes [] g e = cc
link_all_early nodes (n ∷ ns) g e = elim (>>=-eq-err (link_deps nodes n n.depends_on g) _ e) [
  | inl now ↦ link_deps_early nodes n n.depends_on g now
  | inr (next, done, later) ↦ link_all_early nodes ns next later
]
