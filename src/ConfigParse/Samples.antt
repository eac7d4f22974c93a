-- ===== src/ConfigParse/Samples.antt =====
-- The theorems on the helpers applied to small tables and sets.
use mathlib.Core.List.{Perm}
use lunaship.Base.{false, [], ◌∷◌, ◌≡◌, refl, ◌↔◌, All, ok}
use lunaship.Base.Text.{trim_space, is_empty, split}
use lunaship.ConfigParse.Lookup.{
  Fields, table, scalar, end, field, lookup_path, walk, get_field, Leads, path_keys,
  normalized_path, lookup_path-Leads,
}
use lunaship.ConfigParse.Keys.{ordered_keys, IsSortedText, ordered_keys-sorted}

abbrev root : Fields
root = field "payment" (table (field "retry" (scalar "3") end)) end

retry_found : lookup_path root ".payment. retry " ≡ ok (scalar "3")
unfolding lookup_path walk get_field trim_space split
retry_found = refl

lookup_path-Leads_example : (lookup_path root ".payment. retry " ≡ ok (scalar "3")) ↔ (
    (is_empty (normalized_path ".payment. retry ") ≡ false)
    × All (λ p. is_empty (trim_space p) ≡ false) (split "." (normalized_path ".payment. retry "))
    × Leads (table root) (path_keys ".payment. retry ") (scalar "3"))
lookup_path-Leads_example = lookup_path-Leads root ".payment. retry " (scalar "3")

ordered_keys-sorted_example :
    IsSortedText (ordered_keys ("warn" ∷ "debug" ∷ "info" ∷ []))
    × Perm (ordered_keys ("warn" ∷ "debug" ∷ "info" ∷ [])) ("warn" ∷ "debug" ∷ "info" ∷ [])
ordered_keys-sorted_example = ordered_keys-sorted ("warn" ∷ "debug" ∷ "info" ∷ [])
