-- ===== src/ConfigParse/Lookup.antt =====
-- configparse/helpers.go: LookupPath, the walk along a dotted path through nested tables.
use lunaship.Base.{
  String, true, false, Option, none, some, List, [], ◌∷◌, if◌then◌else◌, ◌==◌, Result, ok, err, ◌≡◌,
  refl, ◌↔◌, inl, inr, Bool-cases, Option-cases, ok-injective, err-ne-ok, All, map,
}
use lunaship.Base.Text.{trim_space, is_empty, split, trim_prefix_char}

-- A decoded TOML value: a table, or anything else by its text.
mutual
  pub data Value : Type 0 where
    table : Fields → Value
    scalar : String → Value

  pub data Fields : Type 0 where
    end : Fields
    field : String → Value → Fields → Fields

pub data LookupError : Type 0 where
  empty_section : LookupError
  invalid_section not_a_table not_found : (path : String) → LookupError

-- table[part]
unfoldable pub get_field : Fields → String → Option Value
get_field end k = none
get_field (field j v rest) k = if j == k then some v else get_field rest k

-- current.(map[string]any)
abbrev pub as_table : Value → Option Fields
as_table (table fields) = some fields
as_table (scalar s) = none

-- The loop over the parts of the path.
unfoldable pub walk : String → List String → Value → Result LookupError Value
walk path [] current = ok current
walk path (part ∷ parts) current =
    let name = trim_space part in
    elim (is_empty name) [
      | true ↦ err (invalid_section path)
      | false ↦ elim (as_table current) [
        | none ↦ err (not_a_table path)
        | some fields ↦ elim (get_field fields name) [
          | none ↦ err (not_found path)
          | some next ↦ walk path parts next
        ]
      ]
    ]

-- TrimSpace, then TrimPrefix by ".".
abbrev pub normalized_path : String → String
normalized_path path = trim_prefix_char "." (trim_space path)

unfoldable pub lookup_path : Fields → String → Result LookupError Value
lookup_path root path = elim (is_empty (normalized_path path)) [
  | true ↦ err empty_section
  | false ↦ walk path (split "." (normalized_path path)) (table root)
]

-- Where a list of keys leads from a value, table by table.
pub data Leads : Value → List String → Value → Type 0 where
  arrived : (v : Value) → Leads v [] v
  enter :
      {fields : Fields} {next target : Value} {key : String} {keys : List String}
      → get_field fields key ≡ some next
      → Leads next keys target
      → Leads (table fields) (key ∷ keys) target

walk-Leads :
    (path : String) (parts : List String) (v : Value) {target : Value}
    → walk path parts v ≡ ok target
    → Leads v (map trim_space parts) target × All (λ p. is_empty (trim_space p) ≡ false) parts
unfolding walk
walk-Leads path [] v e = (rw (ok-injective e) (arrived _), tt)
walk-Leads path (part ∷ parts) (scalar s) e = elim (Bool-cases (is_empty (trim_space part))) [
  | inl blank ↦ absurd (err-ne-ok (rw (blank, walk) at e))
  | inr named ↦ absurd (err-ne-ok (rw (named, walk) at e))
]
walk-Leads path (part ∷ parts) (table fields) e = elim (Bool-cases (is_empty (trim_space part))) [
  | inl blank ↦ absurd (err-ne-ok (rw (blank, walk) at e))
  | inr named ↦ elim (Option-cases (get_field fields (trim_space part))) [
    | inl missing ↦ absurd (err-ne-ok (rw (named, missing, walk) at e))
    | inr (next, found) ↦
        let (leads, others) = walk-Leads path parts next (rw (named, found, walk) at e) in
        (enter found leads, (named, others))
  ]
]

Leads-walk :
    (path : String) (parts : List String) {v target : Value}
    → Leads v (map trim_space parts) target
    → All (λ p. is_empty (trim_space p) ≡ false) parts
    → walk path parts v ≡ ok target
unfolding walk
Leads-walk path [] (arrived v) h = refl
Leads-walk path (part ∷ parts) (enter found rest) h =
    rw (h.0, found, walk) (Leads-walk path parts rest h.1)

-- The keys that a section's path names.
abbrev pub path_keys : String → List String
path_keys path = map trim_space (split "." (normalized_path path))

-- LookupPath gives a value exactly when the path is not blank, none of its parts is blank, and the
-- trimmed parts lead from the root through tables to that value.
pub lookup_path-Leads :
    (root : Fields) (path : String) (v : Value)
    → (lookup_path root path ≡ ok v) ↔ (
        (is_empty (normalized_path path) ≡ false)
        × All (λ p. is_empty (trim_space p) ≡ false) (split "." (normalized_path path))
        × Leads (table root) (path_keys path) v)
unfolding lookup_path
lookup_path-Leads root path v = (
  (λ e. elim (Bool-cases (is_empty (normalized_path path))) [
    | inl blank ↦ absurd (err-ne-ok (rw (blank, lookup_path) at e))
    | inr named ↦
        let (leads, others) =
          walk-Leads path (split "." (normalized_path path)) (table root)
            (rw (named, lookup_path) at e) in
        (named, others, leads)
  ]),
  (λ (named, others, leads).
      rw (named, lookup_path) (Leads-walk path (split "." (normalized_path path)) leads others)),
)
