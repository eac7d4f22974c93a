-- ===== src/ModuleApi/Graph/Counting.antt =====
-- The edges of a module graph as a list, and how often a name occurs in lists of names.
use lunaship.Base.{
  ℕ, ◌+◌, String, List, [], ◌∷◌, ◌++◌, map, ◌≡◌, refl, if◌then◌else◌, ◌==◌, eq_iff, arith, eqb,
}
use lunaship.ModuleApi.Graph.{Node}

-- 1 where the two names are equal, else 0.
abbrev pub hit : String → String → ℕ
hit y x = if y == x then 1 else 0

-- How often the name occurs.
unfoldable pub occ : String → List String → ℕ
occ x [] = 0
occ x (y ∷ ys) = hit y x + occ x ys

pub occ-append : (x : String) (xs ys : List String) → occ x (xs ++ ys) ≡ occ x xs + occ x ys
unfolding occ
occ-append x [] ys = omega arith
occ-append x (y ∷ xs) ys = omega (arith, occ-append x xs ys)

pub occ-singleton : (x y : String) → occ x (y ∷ []) ≡ hit y x
unfolding occ
occ-singleton x y = omega arith

-- A dependency, and the module that declares it.
abbrev pub Edge : Type 0
Edge = String × String

-- The modules that declare the dependency `c`, in the edges' order.
unfoldable pub targets : List Edge → String → List String
targets [] c = []
targets ((d, y) ∷ es) c = let rest = targets es c in if d == c then y ∷ rest else rest

-- How many dependencies of `x` are not among the names `done`.
unfoldable pub pend : List Edge → List String → String → ℕ
pend [] done x = 0
pend ((d, y) ∷ es) done x =
    (if y == x then (if eqb (occ d done) 0 then 1 else 0) else 0) + pend es done x

pub targets-append :
    (c : String) (es fs : List Edge) → targets (es ++ fs) c ≡ targets es c ++ targets fs c
unfolding targets
targets-append c [] fs = refl
targets-append c ((d, y) ∷ es) fs = ground (arith, targets-append c es fs)

pub pend-append :
    (done : List String) (x : String) (es fs : List Edge)
    → pend (es ++ fs) done x ≡ pend es done x + pend fs done x
unfolding pend
pend-append done x [] fs = omega arith
pend-append done x ((d, y) ∷ es) fs = omega (arith, pend-append done x es fs)

-- To finish `c` settles each edge from `c` once.
pub pend-finish :
    (c : String) (done : List String) (x : String) (es : List Edge)
    → occ c done ≡ 0
    → pend es done x ≡ pend es (done ++ c ∷ []) x + occ x (targets es c)
unfolding pend targets occ
pend-finish c done x [] h = omega arith
pend-finish c done x ((d, y) ∷ es) h =
    ground (arith, pend-finish c done x es h, occ-append d done (c ∷ []), eq_iff d c, eq_iff c d)

unfoldable pub edges_from : String → List String → List Edge
edges_from name [] = []
edges_from name (d ∷ ds) = (d, name) ∷ edges_from name ds

module _ {M : Type 0} where
  abbrev pub node_names : List (Node M) → List String
  node_names ns = map (λ n. n.name) ns

  unfoldable pub edges_of : List (Node M) → List Edge
  edges_of [] = []
  edges_of (n ∷ ns) = edges_from n.name n.depends_on ++ edges_of ns
