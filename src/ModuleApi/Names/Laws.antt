-- ===== src/ModuleApi/Names/Laws.antt =====
-- module/api.go: what normalizeDependencies keeps of a list of dependencies.
use lunaship.Base.{
  ◌≤◌, String, true, false, List, [], ◌∷◌, map, ◌≡◌, refl, sym, ap, subst, ◌⊎◌, inl, inr, ◌↔◌, ◌==◌,
  eq_iff, arith, In, Bool-cases,
}
use lunaship.Base.Text.{trim_space, is_empty, contains}
use lunaship.Base.Text.Laws.{contains→In, In→contains}
use lunaship.ModuleApi.Names.{normalize_from, normalize_dependencies}
use lunaship.ModuleApi.Graph.Counting.{occ}

skip-or-keep :
    (seen : List String) (d : String) (rest : List String)
    → (normalize_from seen (d ∷ rest) ≡ normalize_from seen rest)
        × ((is_empty (trim_space d) ≡ true) ⊎ In (trim_space d) seen)
      ⊎ (normalize_from seen (d ∷ rest) ≡ trim_space d ∷ normalize_from (trim_space d ∷ seen) rest)
        × (is_empty (trim_space d) ≡ false)
        × (contains seen (trim_space d) ≡ false)
unfolding normalize_from
skip-or-keep seen d rest = elim (Bool-cases (is_empty (trim_space d))) [
  | inl blank ↦ inl (rw (blank, normalize_from), inl blank)
  | inr named ↦ elim (Bool-cases (contains seen (trim_space d))) [
    | inl old ↦ inl (rw (named, old, normalize_from), inr (contains→In seen _ old))
    | inr new ↦ inr (rw (named, new, normalize_from), named, new)
  ]
]

contains_tail :
    (t : String) (ts : List String) (x : String)
    → contains (t ∷ ts) x ≡ false
    → contains ts x ≡ false
unfolding contains
contains_tail t ts x h = elim (Bool-cases (t == x)) [
  | inl same ↦ cc (rw (same, contains) at h)
  | inr other ↦ rw (other, contains) at h
]

normalize_from-In :
    (x : String) (seen ds : List String)
    → In x (normalize_from seen ds)
    → In x (map trim_space ds) × (is_empty x ≡ false) × (contains seen x ≡ false)
unfolding normalize_from
normalize_from-In x seen [] m = elim m [ ]
normalize_from-In x seen (d ∷ ds) m = elim (skip-or-keep seen d ds) [
  | inl (e, _) ↦ let (a, b, c) = normalize_from-In x seen ds (subst (In x) e m) in (inr a, b, c)
  | inr (e, named, new) ↦ elim (subst (In x) e m) [
    | inl here ↦ (inl here, rw here named, rw here new)
    | inr there ↦
        let (a, b, c) = normalize_from-In x (trim_space d ∷ seen) ds there in
        (inr a, b, contains_tail (trim_space d) seen x c)
  ]
]

In-normalize_from :
    (x : String) (seen ds : List String)
    → In x (map trim_space ds)
    → is_empty x ≡ false
    → In x seen ⊎ In x (normalize_from seen ds)
In-normalize_from x seen [] m named = elim m [ ]
In-normalize_from x seen (d ∷ ds) m solid = elim (skip-or-keep seen d ds) [
  | inl (e, inl blank) ↦ elim m [
    | inl here ↦ cc (ap is_empty here)
    | inr there ↦ rw e (In-normalize_from x seen ds there solid)
  ]
  | inl (e, inr old) ↦ elim m [
    | inl here ↦ inl (rw here old)
    | inr there ↦ rw e (In-normalize_from x seen ds there solid)
  ]
  | inr (e, named, new) ↦ elim m [
    | inl here ↦ inr (rw e (inl here))
    | inr there ↦ elim (In-normalize_from x (trim_space d ∷ seen) ds there solid) [
      | inl (inl here) ↦ inr (rw e (inl here))
      | inl (inr old) ↦ inl old
      | inr later ↦ inr (rw e (inr later))
    ]
  ]
]

occ_zero : (x : String) (xs : List String) → ¬ (In x xs) → occ x xs ≡ 0
unfolding occ
occ_zero x [] h = refl
occ_zero x (y ∷ ys) h = elim (Bool-cases (y == x)) [
  | inl same ↦ absurd (h (inl (sym ((eq_iff y x).0 same))))
  | inr other ↦ rw other (omega (arith, occ_zero x ys (λ m. h (inr m))))
]

occ-normalize_from : (x : String) (seen ds : List String) → occ x (normalize_from seen ds) ≤ 1
unfolding normalize_from occ
occ-normalize_from x seen [] = omega arith
occ-normalize_from x seen (d ∷ ds) = elim (skip-or-keep seen d ds) [
  | inl (e, _) ↦ rw e (occ-normalize_from x seen ds)
  | inr (e, named, new) ↦
      let rest = normalize_from (trim_space d ∷ seen) ds in
      elim (Bool-cases (trim_space d == x)) [
        | inl same ↦
            let absent = occ_zero x rest (λ m.
              let (_, _, fresh) = normalize_from-In x (trim_space d ∷ seen) ds m in
              let held =
                In→contains (trim_space d ∷ seen) x
                  (inl (sym ((eq_iff (trim_space d) x).0 same))) in
              cc) in
            rw e (rw same (omega (arith, absent)))
        | inr other ↦ rw e (rw other (omega (arith, occ-normalize_from x (trim_space d ∷ seen) ds)))
      ]
]

-- A name is in the normalised list exactly when it is not empty and is the trimmed form of one of
-- the given dependencies, and it stands there once at most.
pub normalize_dependencies-In :
    (x : String) (ds : List String)
    → (In x (normalize_dependencies ds) ↔ (In x (map trim_space ds) × (is_empty x ≡ false)))
      × (occ x (normalize_dependencies ds) ≤ 1)
unfolding normalize_dependencies
normalize_dependencies-In x ds = (
  (
    (λ m. let (a, b, c) = normalize_from-In x [] ds m in (a, b)),
    λ (m, solid). elim (In-normalize_from x [] ds m solid) [
      | inl old ↦ elim old [ ]
      | inr found ↦ found
    ],
  ),
  occ-normalize_from x [] ds,
)
