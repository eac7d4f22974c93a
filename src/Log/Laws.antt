-- ===== src/Log/Laws.antt =====
-- log/required_fields_core.go: what every entry that is written has.
use Prim.Native.String.{◌∷◌ as ◌∷ₛ◌, [] as []ₛ}
use lunaship.Base.{
  ℕ, zero, suc, ◌+◌, ◌≤◌, String, true, false, not, none, some, List, [], ◌∷◌, ◌++◌, ◌≡◌, refl,
  ◌==◌, keep, ◌||◌, arith, ap, All, Bool-cases, Option-cases, some-injective, subst, In, All-of,
  inl, inr, eq_iff, sym, ◌∙◌,
}
use lunaship.Base.Text.{contains}
use lunaship.Log.{
  Field, FieldValue, string, other, alias, find_alias, field_key_aliases, truncate_value,
  rune_count, cut_from, truncate_utf8, normalize_field, normalize_fields, keys, RequiredFieldsCore,
  merged_fields,
}

-- The first `n` runes of a text.
abbrev pub first_runes : ℕ → String → String
first_runes zero s = []ₛ
first_runes (suc n) []ₛ = []ₛ
first_runes (suc n) (c ∷ₛ s) = c ∷ₛ first_runes n s

cut_from-first :
    (n count max : ℕ) (s : String) → count + n ≡ max → cut_from count max s ≡ first_runes n s
unfolding cut_from
cut_from-first zero count max []ₛ e = refl
cut_from-first (suc n) count max []ₛ e = refl
cut_from-first zero count max (c ∷ₛ s) e = ground arith
cut_from-first (suc n) count max (c ∷ₛ s) e =
    ground (arith, cut_from-first n (suc count) max s (omega arith))

first_runes-all : (n : ℕ) (s : String) → rune_count s ≤ n → first_runes n s ≡ s
unfolding rune_count
first_runes-all zero []ₛ h = refl
first_runes-all (suc n) []ₛ h = refl
first_runes-all zero (c ∷ₛ s) h = absurd (omega arith)
first_runes-all (suc n) (c ∷ₛ s) h = ap (λ t. c ∷ₛ t) (first_runes-all n s (omega arith))

-- truncateUTF8 gives the first `max` runes of the text, cut at no other place.
pub truncate_utf8-first : (s : String) (max : ℕ) → truncate_utf8 s max ≡ first_runes max s
unfolding truncate_utf8
truncate_utf8-first []ₛ zero = refl
truncate_utf8-first []ₛ (suc n) = ground arith
truncate_utf8-first (c ∷ₛ s) zero = refl
truncate_utf8-first (c ∷ₛ s) (suc n) = ground (
  arith,
  first_runes-all (suc n) (c ∷ₛ s),
  cut_from-first (suc n) 0 (suc n) (c ∷ₛ s) (omega arith),
)

rune_count-first : (n : ℕ) (s : String) → rune_count (first_runes n s) ≤ n
unfolding rune_count
rune_count-first zero s = omega arith
rune_count-first (suc n) []ₛ = omega arith
rune_count-first (suc n) (c ∷ₛ s) = omega (arith, rune_count-first n s)

first_runes_twice : (n : ℕ) (s : String) → first_runes n (first_runes n s) ≡ first_runes n s
first_runes_twice zero s = refl
first_runes_twice (suc n) []ₛ = refl
first_runes_twice (suc n) (c ∷ₛ s) = ap (λ t. c ∷ₛ t) (first_runes_twice n s)

truncate_twice : (s : String) (n : ℕ) → truncate_utf8 (truncate_utf8 s n) n ≡ truncate_utf8 s n
truncate_twice s n =
    truncate_utf8-first (truncate_utf8 s n) n
    ∙ ap (first_runes n) (truncate_utf8-first s n)
    ∙ first_runes_twice n s
    ∙ sym (truncate_utf8-first s n)

find_alias-All :
    (P : String → Type 0) (table : List (String × String)) (key : String) {v : String}
    → All (λ e. P e.1) table
    → find_alias table key ≡ some v
    → P v
unfolding find_alias
find_alias-All P [] key h e = cc
find_alias-All P ((k, w) ∷ rest) key h e = elim (Bool-cases (k == key)) [
  | inl same ↦ subst P (some-injective (rw (same, find_alias) at e)) h.0
  | inr differs ↦ find_alias-All P rest key h.1 (rw (differs, find_alias) at e)
]

-- No alias is renamed again.
aliases_kept : All (λ e. find_alias field_key_aliases e.1 ≡ none) field_key_aliases
unfolding find_alias
aliases_kept = (refl, (refl, (refl, (refl, (refl, (refl, (refl, tt)))))))

alias_twice : (key : String) → alias (alias key) ≡ alias key
unfolding alias
alias_twice key = elim (Option-cases (find_alias field_key_aliases key)) [
  | inl unknown ↦ rw (unknown, alias, unknown)
  | inr (v, found) ↦
      let kept =
        find_alias-All (λ w. find_alias field_key_aliases w ≡ none) field_key_aliases key
          aliases_kept found in
      rw (found, alias, kept)
]

truncate_value_twice :
    {V : Type 0} (key : String) (v : FieldValue V)
    → truncate_value key (truncate_value key v) ≡ truncate_value key v
truncate_value_twice key (other v) = refl
truncate_value_twice key (string s) = elim (Bool-cases (key == "_sql")) [
  | inl sql ↦ ground (arith, truncate_twice s 1024)
  | inr plain ↦ ground arith
]

normalize_field_twice :
    {V : Type 0} (f : Field V) → normalize_field (normalize_field f) ≡ normalize_field f
unfolding normalize_field
normalize_field_twice f = rw (alias_twice f.key, truncate_value_twice (alias f.key) f.value)

-- Fields that have been normalised are not changed by a second normalisation.
pub normalize_fields_twice :
    {V : Type 0} (fs : List (Field V))
    → normalize_fields (normalize_fields fs) ≡ normalize_fields fs
unfolding normalize_fields
normalize_fields_twice [] = refl
normalize_fields_twice (f ∷ fs) = cc (normalize_field_twice f, normalize_fields_twice fs)

contains-append :
    (xs ys : List String) (k : String) → contains (xs ++ ys) k ≡ contains xs k || contains ys k
unfolding contains
contains-append [] ys k = refl
contains-append (x ∷ xs) ys k = ground (arith, contains-append xs ys k)

keys-append : {V : Type 0} (xs ys : List (Field V)) → keys (xs ++ ys) ≡ keys xs ++ keys ys
keys-append [] ys = refl
keys-append (x ∷ xs) ys = ap (λ l. x.key ∷ l) (keys-append xs ys)

-- A default whose key is not present is kept.
keep_missing :
    {V : Type 0} (present : List String) (ds : List (Field V)) (d : Field V)
    → In d ds
    → contains present d.key ≡ false
    → contains (keys (keep (λ f. not (contains present f.key)) ds)) d.key ≡ true
unfolding keep contains
keep_missing present [] d i absent = elim i [ ]
keep_missing present (x ∷ ds) d (inl e) absent =
    ground (arith, ap (λ f. f.key) e, eq_iff x.key d.key)
keep_missing present (x ∷ ds) d (inr i) absent = ground (arith, keep_missing present ds d i absent)

-- Every required field is in every entry: bound to the core, given with the entry, or added.
pub merged_fields-defaults :
    {C V : Type 0} (c : RequiredFieldsCore C V) (fields : List (Field V))
    → All (λ d. contains (c.bound_fields ++ keys (merged_fields c fields)) d.key ≡ true) c.defaults
unfolding merged_fields
merged_fields-defaults c fields = All-of _ c.defaults (λ d i.
    let normal = normalize_fields fields in
    let present = c.bound_fields ++ keys normal in
    let added = keep (λ f. not (contains present f.key)) c.defaults in
    ground (
      arith,
      keep_missing present c.defaults d i,
      keys-append normal added,
      contains-append c.bound_fields (keys (normal ++ added)) d.key,
      contains-append c.bound_fields (keys normal) d.key,
      contains-append (keys normal) (keys added) d.key,
    ))
